-- ===== src/ClientTool/Main/Variants.antt =====
-- dbgpClient/no-cloud.go and no-proxy.go: the variants of the client, in which the functions that handle
-- the flags of the cloud, or of the proxy, do nothing, and no flag sets what they would look at.
use dbgp_tools.Base.{Bytes, ◌==◌, ◌≡◌, refl, []}
use dbgp_tools.ClientTool.Proxy.{Flags, Env, Result, Handled, goes_on, handle_proxy_arguments}
use dbgp_tools.ClientTool.Main.{handle_cloud_arguments}

-- handleCloudArguments() with NO_CLOUD
abbrev pub no_cloud_arguments : Flags → Flags
no_cloud_arguments f = f

-- handleProxyArguments() with NO_PROXY
abbrev pub no_proxy_arguments : Handled
no_proxy_arguments = goes_on []

-- Without a user of the cloud the full program does the same.
pub handle_cloud_arguments-no_cloud_arguments :
    (f : Flags)
    → f.cloud_user ≡ []
    → f.discloud_user ≡ []
    → handle_cloud_arguments f ≡ no_cloud_arguments f
unfolding handle_cloud_arguments ◌==◌
handle_cloud_arguments-no_cloud_arguments f none_given none_left = rw (none_given, none_left) refl

-- Without a key to register or to unregister the full program does the same.
pub handle_proxy_arguments-no_proxy_arguments :
    (env later : Env) (f : Flags) (error_text : Result → Bytes)
    → f.register ≡ []
    → f.unregister ≡ []
    → handle_proxy_arguments env later f error_text ≡ no_proxy_arguments
unfolding handle_proxy_arguments ◌==◌
handle_proxy_arguments-no_proxy_arguments env later f error_text none_given none_left =
    rw (none_given, none_left) refl
