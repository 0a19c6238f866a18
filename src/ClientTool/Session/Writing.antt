-- ===== src/ClientTool/Session/Writing.antt =====
-- What a session writes: numbered lines, and how the writing of two parts is put together.
use mathlib.Core.Path.{subst}
use dbgp_tools.Base.{
  Bytes, codes, ◌==◌, ℕ, suc, ◌+◌, false, if◌then◌else◌, List, [], ◌∷◌, ◌++◌, All, length,
  length-append, append_assoc, append-nil, ◌≡◌, refl, sym, ap, ◌∙◌, arith,
}
use dbgp_tools.Base.Int.{pos}
use dbgp_tools.Go.Decimal.{itoa}
use dbgp_tools.Go.Text.{split}
use dbgp_tools.Protocol.Client.{dash_i, contains}
use dbgp_tools.Protocol.Client.Lines.{space, parts_of}
use dbgp_tools.ClientTool.Session.{
  Input, line, interrupt, end_of_input, Session, Round, over, going, typed,
}

-- The commands that the input asks for: "help" is none, an empty line is the one before again, and an
-- interrupt or the end of the input is the end.
abbrev pub commands : Bytes → List Input → List Bytes
commands last [] = []
commands last (interrupt ∷ later) = []
commands last (end_of_input ∷ later) = []
commands last (line text ∷ later) =
    if text == codes "help"
    then commands last later
    else typed last text ∷ commands (typed last text) later

-- Texts, each with a byte 0 behind it.
abbrev pub terminated : List Bytes → Bytes
terminated [] = []
terminated (t ∷ ts) = (t ++ 0 ∷ []) ++ terminated ts

-- The text is the command with its number behind the name.
abbrev pub IsNumbered : ℕ → Bytes → Bytes → Type 0
IsNumbered n command text =
    (name : Bytes) × (args : List Bytes) × (parts_of command ≡ name ∷ args)
    × (split space text ≡ name ∷ dash_i ∷ itoa (pos n) ∷ args)

-- The texts are the commands, one for one, with consecutive numbers.
abbrev pub Numbered : ℕ → List Bytes → List Bytes → Type 0
Numbered n [] [] = Unit
Numbered n [] (t ∷ ts) = ⊥
Numbered n (c ∷ cs) [] = ⊥
Numbered n (c ∷ cs) (t ∷ ts) = IsNumbered n c t × Numbered (suc n) cs ts

-- A command that leaves its number to the client.
abbrev pub IsPlain : Bytes → Type 0
IsPlain command = contains dash_i (parts_of command) ≡ false

pub record Writes (sent : Bytes) (n : ℕ) (todo : List Bytes) (s : Session) (rest : List Bytes)
    : Type 0 where
  pub lines : List Bytes
  pub texts : List Bytes
  pub wrote : s.conn.sent ≡ sent ++ terminated texts
  pub numbers : Numbered n lines texts
  pub counted : s.client.counter ≡ n + length lines
  pub took : todo ≡ lines ++ rest
  pub quiet : s.conn.faults ≡ []

abbrev pub Steps : Bytes → ℕ → List Bytes → Round → Type 0
Steps sent n todo (over e s) = (rest : List Bytes) × Writes sent n todo s rest
Steps sent n todo (going s) = Writes sent n todo s (commands s.last_command s.inputs)

pub nothing :
    (sent : Bytes) (n : ℕ) (todo : List Bytes) (s : Session)
    → s.conn.sent ≡ sent
    → s.client.counter ≡ n
    → s.conn.faults ≡ []
    → Writes sent n todo s todo
nothing sent n todo s e c q = record {
  lines = [];
  texts = [];
  wrote = e ∙ sym (append-nil sent);
  numbers = tt;
  counted = omega (arith, c);
  took = refl;
  quiet = q;
}

terminated-append : (ts us : List Bytes) → terminated (ts ++ us) ≡ terminated ts ++ terminated us
terminated-append [] us = refl
terminated-append (t ∷ ts) us =
    ap (λ r. (t ++ 0 ∷ []) ++ r) (terminated-append ts us)
    ∙ sym (append_assoc (t ++ 0 ∷ []) (terminated ts) (terminated us))

Numbered-append :
    (n m : ℕ) (cs ts ds us : List Bytes)
    → m ≡ n + length cs
    → Numbered n cs ts
    → Numbered m ds us
    → Numbered n (cs ++ ds) (ts ++ us)
Numbered-append n m [] [] ds us e h k = subst (λ i. Numbered i ds us) (omega (arith, e)) k
Numbered-append n m [] (t ∷ ts) ds us e h k = absurd h
Numbered-append n m (c ∷ cs) [] ds us e h k = absurd h
Numbered-append n m (c ∷ cs) (t ∷ ts) ds us e h k =
    (h.0, Numbered-append (suc n) m cs ts ds us (omega (arith, e)) h.1 k)

pub All-suffix : (xs ys : List Bytes) → All IsPlain (xs ++ ys) → All IsPlain ys
All-suffix [] ys h = h
All-suffix (x ∷ xs) ys h = All-suffix xs ys h.1

pub compose :
    (sent : Bytes) (n : ℕ) (todo rest : List Bytes) (s t : Session)
    → Writes sent n todo s (commands s.last_command s.inputs)
    → Writes s.conn.sent s.client.counter (commands s.last_command s.inputs) t rest
    → Writes sent n todo t rest
compose sent n todo rest s t a b = record {
  lines = a.lines ++ b.lines;
  texts = a.texts ++ b.texts;
  wrote =
      b.wrote
      ∙ ap (λ r. r ++ terminated b.texts) a.wrote
      ∙ append_assoc sent (terminated a.texts) (terminated b.texts)
      ∙ ap (λ r. sent ++ r) (sym (terminated-append a.texts b.texts));
  numbers =
      Numbered-append n s.client.counter a.lines a.texts b.lines b.texts a.counted a.numbers
        b.numbers;
  counted = omega (arith, b.counted, a.counted, length-append a.lines b.lines);
  took = a.took ∙ ap (λ r. a.lines ++ r) b.took ∙ sym (append_assoc a.lines b.lines rest);
  quiet = b.quiet;
}
