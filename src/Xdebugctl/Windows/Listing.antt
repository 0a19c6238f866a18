-- ===== src/Xdebugctl/Windows/Listing.antt =====
-- The map of the pipes from the buffers of NtQueryDirectoryFile: the walks through them end.
use dbgp_tools.Base.{
  Bytes, ltb, eqb, if◌then◌else◌, ℕ, zero, suc, ◌+◌, ◌-◌, ◌<◌, Bool, true, false, Option, none,
  some, List, [], ◌∷◌, ◌++◌, ◌≡◌, refl, arith, ap, ◌∙◌, sym, Bool-cases, inl, inr,
}
use dbgp_tools.Base.Int.{ℤ, pos, negsuc, is_int}
use dbgp_tools.Xdebugctl.Sockets.{Files, put, without}
use dbgp_tools.Xdebugctl.Windows.{
  FileInformation, Query, entries, no_more_files, found, panicked, unfinished, pipe_of, store,
  store_as, Walked, no_name, out_of_fuel, stored, walk, query_all, find_files,
}

-- The names in a buffer with so many bytes, from an offset on: each entry says how far behind it the
-- next one is, and the last says 0 or points behind the bytes.
pub data Chain (buf : ℕ → FileInformation) (information : ℕ) : ℕ → List Bytes → Type 0 where
  past : {offset : ℕ} → ltb offset information ≡ false → Chain buf information offset []
  last :
      {offset b : ℕ} {name : Bytes}
      → ltb offset information ≡ true
      → (buf offset).file_name ≡ b ∷ name
      → (buf offset).next_entry_offset ≡ 0
      → Chain buf information offset ((b ∷ name) ∷ [])
  more :
      {offset b n : ℕ} {name : Bytes} {names : List Bytes}
      → ltb offset information ≡ true
      → (buf offset).file_name ≡ b ∷ name
      → (buf offset).next_entry_offset ≡ suc n
      → Chain buf information (offset + suc n) names
      → Chain buf information offset ((b ∷ name) ∷ names)

-- The names in the buffers of the calls, up to the one that finds no more files.
pub data Lists : List Query → List Bytes → Type 0 where
  done : {qs : List Query} → Lists (no_more_files ∷ qs) []
  page :
      {buf : ℕ → FileInformation} {information : ℕ} {qs : List Query} {names rest : List Bytes}
      → Chain buf information 0 names
      → Lists qs rest
      → Lists (entries buf information ∷ qs) (names ++ rest)

abbrev pub get : ℤ → Files → Option Bytes
get k [] = none
get k ((j, file) ∷ v) = if is_int j k then some file else get k v

abbrev pub or_else : Option Bytes → Option Bytes → Option Bytes
or_else (some a) b = some a
or_else none b = b

is_named : Option ℤ → ℤ → Bool
is_named none pid = false
is_named (some k) pid = is_int k pid

is_int_same : (j k m : ℤ) → is_int j k ≡ true → is_int j m ≡ is_int k m
is_int_same (pos a) (pos b) (pos c) h = ground arith
is_int_same (pos a) (pos b) (negsuc c) h = refl
is_int_same (pos a) (negsuc b) m h = ground arith
is_int_same (negsuc a) (pos b) m h = ground arith
is_int_same (negsuc a) (negsuc b) (pos c) h = refl
is_int_same (negsuc a) (negsuc b) (negsuc c) h = ground arith

get-without : (k m : ℤ) (v : Files) → is_int k m ≡ false → get m (without k v) ≡ get m v
unfolding without
get-without k m [] h = refl
get-without k m ((j, file) ∷ v) h = elim (Bool-cases (is_int j k)) [
  | inl same ↦ rw (same, is_int_same j k m same, h) (get-without k m v h)
  | inr other ↦ rw (other, get-without k m v h)
]

get-put :
    (k m : ℤ) (file : Bytes) (v : Files)
    → get m (put k file v) ≡ (if is_int k m then some file else get m v)
unfolding put
get-put k m file v = elim (Bool-cases (is_int k m)) [
  | inl same ↦ rw same
  | inr other ↦ rw other (get-without k m v other)
]

module _ (scan_pid : Bytes → Option ℤ) where
  -- The pipe of the last name with a PID.
  unfoldable pub newest : ℤ → List Bytes → Option Bytes
  unfolding is_named
  newest pid [] = none
  newest pid (name ∷ names) =
      or_else (newest pid names)
        (if is_named (scan_pid name) pid then some (pipe_of name) else none)

  store_all : List Bytes → Files → Files
  store_all [] v = v
  store_all (name ∷ names) v = store_all names (store scan_pid name v)

  store_all-append :
      (xs ys : List Bytes) (v : Files) → store_all (xs ++ ys) v ≡ store_all ys (store_all xs v)
  unfolding store_all
  store_all-append [] ys v = refl
  store_all-append (x ∷ xs) ys v = store_all-append xs ys (store scan_pid x v)

  walk-Chain :
      {buf : ℕ → FileInformation} {information : ℕ} (fuel : ℕ) {offset : ℕ} {names : List Bytes}
      (v : Files)
      → Chain buf information offset names
      → information - offset < fuel
      → walk scan_pid buf information fuel offset v ≡ stored (store_all names v)
  unfolding walk store_all
  walk-Chain zero v c enough = absurd (omega arith)
  walk-Chain (suc fuel) v (past h) enough = rw h
  walk-Chain (suc fuel) v (last h e z) enough = rw (h, e, z, e)
  walk-Chain (suc fuel) v (more {b} {n} {name} h e z c) enough =
      let further : eqb (suc n) 0 ≡ false = ground arith in
      rw (h, e, z, e, further) (walk-Chain fuel (store scan_pid (b ∷ name) v) c (ground arith))

  query_all-Lists :
      {qs : List Query} {names : List Bytes} (v : Files)
      → Lists qs names
      → query_all scan_pid qs v ≡ found (store_all names v) none
  unfolding query_all store_all
  query_all-Lists v done = refl
  query_all-Lists v (page {buf} {information} {qs} {names} {rest} c l) =
      ap
        (λ (o : Walked). elim o [
          | stored v' ↦ query_all scan_pid qs v'
          | no_name ↦ panicked
          | out_of_fuel ↦ unfinished
        ])
        (walk-Chain (suc information) v c (omega arith))
      ∙ query_all-Lists (store_all names v) l
      ∙ ap (λ m. found m none) (sym (store_all-append names rest v))

  or_else_if :
      (b : Bool) (file : Bytes) (o : Option Bytes)
      → (if b then some file else o) ≡ or_else (if b then some file else none) o
  or_else_if true file o = refl
  or_else_if false file o = refl

  get-store_as :
      (pid : ℤ) (name : Bytes) (v : Files) (o : Option ℤ)
      → get pid (store_as name v o)
        ≡ or_else (if is_named o pid then some (pipe_of name) else none) (get pid v)
  unfolding is_named
  get-store_as pid name v none = refl
  get-store_as pid name v (some k) =
      get-put k pid (pipe_of name) v ∙ or_else_if (is_int k pid) (pipe_of name) (get pid v)

  or_else_assoc : (a b c : Option Bytes) → or_else a (or_else b c) ≡ or_else (or_else a b) c
  or_else_assoc none b c = refl
  or_else_assoc (some x) b c = refl

  get-store_all :
      (pid : ℤ) (names : List Bytes) (v : Files)
      → get pid (store_all names v) ≡ or_else (newest pid names) (get pid v)
  unfolding store_all newest
  get-store_all pid [] v = refl
  get-store_all pid (name ∷ names) v =
      get-store_all pid names (store scan_pid name v)
      ∙ ap (or_else (newest pid names)) (get-store_as pid name v (scan_pid name))
      ∙ or_else_assoc (newest pid names) _ (get pid v)

  or_else-none : (a : Option Bytes) → or_else a none ≡ a
  or_else-none none = refl
  or_else-none (some x) = refl

  -- If the pipes can be listed, and the calls of NtQueryDirectoryFile leave the entries of some names,
  -- each call in a chain of offsets, until there are no more files, the loops of findFiles end, and it
  -- returns no error and a map that has for each PID the pipe of the last of the names that the PID
  -- stands in, and no entry if there is none.
  pub find_files-Lists :
      {qs : List Query} {names : List Bytes}
      → Lists qs names
      → (v : Files) × (find_files scan_pid none qs ≡ found v none)
        × ((pid : ℤ) → get pid v ≡ newest pid names)
  unfolding find_files
  find_files-Lists {qs} {names} l = (
    store_all names [],
    query_all-Lists [] l,
    λ pid. get-store_all pid names [] ∙ or_else-none (newest pid names),
  )
