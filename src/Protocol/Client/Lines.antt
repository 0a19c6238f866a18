-- ===== src/Protocol/Client/Lines.antt =====
-- What processLine makes of a line.
use dbgp_tools.Base.{
  Bytes, ◌==◌, All, Lacks, if◌then◌else◌, Bool-cases, ℕ, ◌+◌, ◌≤◌, ◌≡◌, refl, sym, ap, ◌∙◌, inl,
  inr, Bool, true, false, none, some, List, [], ◌∷◌, ◌++◌, arith,
}
use dbgp_tools.Base.Int.{ℤ, pos, is_positive}
use dbgp_tools.Go.Decimal.{itoa, format_nat, atoi}
use dbgp_tools.Go.Decimal.RoundTrip.{itoa-pos, format_nat-All}
use dbgp_tools.Go.Text.{split, trim_space}
use dbgp_tools.Go.Text.Laws.{split-join, split-All, split-ne-nil, join-split}
use dbgp_tools.Protocol.Client.{
  DbgpClient, dash_i, dash_b, contains, insert_i, inject_i_if_needed, source_begin, source_begin_of,
  process_line,
}

abbrev pub space : ℕ
space = b' '

-- The parts of a line.
abbrev pub parts_of : Bytes → List Bytes
parts_of line = split space (trim_space line)

digits_lack_space : (s : Bytes) → All (λ c. (b'0' ≤ c) × (c ≤ b'9')) s → Lacks space s
digits_lack_space [] h = tt
digits_lack_space (c ∷ s) h = (omega arith, digits_lack_space s h.1)

pub itoa-Lacks-space : (n : ℕ) → Lacks space (itoa (pos n))
itoa-Lacks-space n = rw itoa-pos (digits_lack_space (format_nat n) (format_nat-All n))

-- A line with a part -i is sent as it is, but for the white space at its ends, and takes no
-- number.
pub process_line-with_i :
    (line : Bytes) (c : DbgpClient)
    → contains dash_i (parts_of line) ≡ true
    → ((process_line line c).content ≡ trim_space line)
      × ((process_line line c).client.counter ≡ c.counter)
unfolding process_line
process_line-with_i line c has = (rw has (join-split space (trim_space line)), rw has)

-- A line without a part -i is sent with -i and the counter behind the name of the command, with
-- the other parts as they are, and the counter goes up by one.
pub process_line-without_i :
    (line : Bytes) (c : DbgpClient) (name : Bytes) (args : List Bytes)
    → contains dash_i (parts_of line) ≡ false
    → parts_of line ≡ name ∷ args
    → (split space (process_line line c).content ≡ name ∷ dash_i ∷ itoa (pos c.counter) ∷ args)
      × ((process_line line c).client.counter ≡ c.counter + 1)
unfolding process_line
process_line-without_i line c name args lacks e =
    let plain : All (Lacks space) (name ∷ args) = rw e at (split-All space (trim_space line)) in
    (
      rw (lacks, e, insert_i)
          (split-join space name (dash_i ∷ itoa (pos c.counter) ∷ args)
            (plain.0, (omega arith, (itoa-Lacks-space c.counter, plain.1)))),
      rw lacks,
    )

-- The numbers of the parts that follow a part "-b", where they are positive, in order.
abbrev after_b : Bool → Bytes → List ℤ
after_b false item = []
after_b true item = elim (atoi item) [
  | none ↦ []
  | some value ↦ if is_positive value then value ∷ [] else []
]

abbrev pub begin_lines : Bytes → List Bytes → List ℤ
begin_lines before [] = []
begin_lines before (item ∷ rest) = after_b (before == dash_b) item ++ begin_lines item rest

abbrev pub last_or : ℤ → List ℤ → ℤ
last_or start [] = start
last_or start (b ∷ bs) = last_or b bs

source_begin-last_or :
    (parts : List Bytes) (before : Bytes) (b : ℤ)
    → source_begin parts (before == dash_b) b ≡ last_or b (begin_lines before parts)
unfolding source_begin
source_begin-last_or [] before b = refl
source_begin-last_or (item ∷ rest) before b =
    source_begin-last_or rest item _ ∙ unfold source_begin_of in ground arith

split-injected :
    (line : Bytes) (c : DbgpClient)
    → split space (process_line line c).content ≡ (inject_i_if_needed (parts_of line) c).content
split-injected line c = elim (Bool-cases (contains dash_i (parts_of line))) [
  | inl has ↦
      ap (split space) (process_line-with_i line c has).0 ∙ unfold inject_i_if_needed in rw has
  | inr lacks ↦
      let (name, args, e) = split-ne-nil space (trim_space line) in
      (process_line-without_i line c name args lacks e).0
      ∙ unfold inject_i_if_needed in rw (lacks, e, insert_i)
]

last_source_begin-injected :
    (line : Bytes) (c : DbgpClient)
    → (process_line line c).client.last_source_begin
      ≡ source_begin (inject_i_if_needed (parts_of line) c).content false (pos 1)
unfolding process_line
last_source_begin-injected line c = refl

source_begin_start :
    (parts : List Bytes) → source_begin parts false (pos 1) ≡ last_or (pos 1) (begin_lines [] parts)
unfolding ◌==◌
source_begin_start parts = source_begin-last_or parts [] (pos 1)

-- After a line has been processed, the first line number of a listing is the last positive number
-- that follows a part "-b" in the line that is sent, and 1 if there is none, whatever it was before.
pub process_line-last_source_begin :
    (line : Bytes) (c : DbgpClient)
    → (process_line line c).client.last_source_begin
      ≡ last_or (pos 1) (begin_lines [] (split space (process_line line c).content))
process_line-last_source_begin line c =
    last_source_begin-injected line c
    ∙ source_begin_start (inject_i_if_needed (parts_of line) c).content
    ∙ ap (λ ps. last_or (pos 1) (begin_lines [] ps)) (sym (split-injected line c))
