-- ===== src/Asm/Conditions.antt =====
-- The condition suffixes that scripts/asm.py asks for, and the masks that it encodes from them.
use idli_v.Prelude.{
  ℕ, zero, suc, ◌≡◌, refl, sym, ap, subst, ◌∙◌, arith, true, ◌||◌, List, [], ◌∷◌, map, Option, none,
  some, Text, Dict, ok, err, Result, abort, guard, parts, then_parts, guard-true, ◌>>=◌, ◌>>◌, ◌⊎◌,
  inl, inr, Bool-cases, length, ◌==◌,
}
use idli_v.Isa.Instr.{Cond, Ops, Instruction, Item, instr, num_cond, size, encode_mask}
use idli_v.Isa.Instr.Mask.{mask_value, Follow, encode_mask-Follow}
use idli_v.Asm.{Op, real_op, synonym, InstrTree, instr_tree, Source, Asm}
use idli_v.Asm.Parse.{
  check_suffix, instr_of, add_item, parse_instr, parse_tree, next_need, step_instr, operands_of,
  make_instr,
}
use idli_v.Isa.Synonym.{real, substitute}

-- A suffix where one is needed, and only there.
abbrev Suffixed : ℕ → Option Cond → Type 0
Suffixed zero c = c ≡ none
Suffixed (suc need) c = (x : Cond) × (c ≡ some x)

-- A series of instructions that the count of the needed suffixes goes through to zero.
abbrev Accepts : ℕ → List Instruction → Type 0
Accepts need [] = need ≡ 0
Accepts need (i ∷ rest) =
    Suffixed need i.cond
    × ((num_cond i ≡ 0) ⊎ (need ≡ 0))
    × Accepts (next_need (num_cond i) need) rest

Accepts-Follow :
    (need : ℕ) (is : List Instruction)
    → Accepts need is
    → (conds : List Cond) × (length conds ≡ need) × Follow conds (map instr is)
Accepts-Follow zero is h = ([], refl, tt)
Accepts-Follow (suc need) [] h = absurd (omega arith)
Accepts-Follow (suc need) (i ∷ rest) ((x, e), alone, h) =
    let none_new : num_cond i ≡ 0 = elim alone [ inl z ↦ z | inr z ↦ absurd (omega arith) ] in
    let next : next_need (num_cond i) (suc need) ≡ need = rw none_new (omega arith) in
    let (conds, len, follow) = Accepts-Follow need rest (subst (λ n. Accepts n rest) next h) in
    (x ∷ conds, ap suc len, (e, follow))

-- Each instruction with those behind it has as many suffixes as it asks for, and the mask of these
-- is what `encode` computes.
abbrev pub AreMasked : List Instruction → Type 0
AreMasked [] = Unit {0}
AreMasked (i ∷ rest) =
    ((conds : List Cond) × (length conds ≡ num_cond i)
      × (encode_mask (num_cond i) (map instr rest) ≡ ok (mask_value conds)))
    × AreMasked rest

masked-first :
    (need : ℕ) (i : Instruction) (rest : List Instruction)
    → Accepts (next_need (num_cond i) need) rest
    → (conds : List Cond) × (length conds ≡ num_cond i)
      × (encode_mask (num_cond i) (map instr rest) ≡ ok (mask_value conds))
masked-first need i rest h = elim (Bool-cases (num_cond i == 0)) [
  | inl e ↦
      let none_new : num_cond i ≡ 0 = ground arith in
      ([], sym none_new, rw none_new (encode_mask-Follow [] (map instr rest) tt))
  | inr e ↦
      let next : next_need (num_cond i) need ≡ num_cond i = rw e refl in
      let (conds, len, follow) =
        Accepts-Follow (num_cond i) rest (subst (λ n. Accepts n rest) next h) in
      (
        conds,
        len,
        subst (λ n. encode_mask n (map instr rest) ≡ ok (mask_value conds)) len
            (encode_mask-Follow conds (map instr rest) follow),
      )
]

Accepts-AreMasked : (need : ℕ) (is : List Instruction) → Accepts need is → AreMasked is
Accepts-AreMasked need [] h = tt
Accepts-AreMasked need (i ∷ rest) (suffix, alone, h) =
    (masked-first need i rest h, Accepts-AreMasked (next_need (num_cond i) need) rest h)

check_suffix-Suffixed :
    (c : Option Cond) (need : ℕ) (items : Dict Item) {u : Unit {0}}
    → check_suffix c need items ≡ ok u
    → Suffixed need c
unfolding check_suffix
check_suffix-Suffixed none zero items h = refl
check_suffix-Suffixed none (suc need) items h =
    absurd (ground (arith, guard-true (suc need == 0) abort h))
check_suffix-Suffixed (some x) zero items h = absurd (cc h)
check_suffix-Suffixed (some x) (suc need) items h = (x, refl)

make_instr-cond :
    (op : Op) (o : Ops) (c : Option Cond) {i : Instruction} → make_instr op o c ≡ ok i → i.cond ≡ c
make_instr-cond (real_op k) o c h = cc
make_instr-cond (synonym y) o c h =
    let (o', made, e) =
      parts (substitute y o)
        (λ o'. ok (record { mnem = real y; ops = o'; cond = c; cex_mask = none })) h in
    cc

instr_of-cond : (tree : InstrTree) {i : Instruction} → instr_of tree ≡ ok i → i.cond ≡ tree.cond
unfolding instr_of
instr_of-cond tree h =
    let (o, made, e) =
      parts (operands_of tree.pattern tree.tokens) (λ o. make_instr tree.op o tree.cond) h in
    make_instr-cond tree.op o tree.cond made

-- Trees of instructions, each at its prefix, one behind the other.
abbrev pub parse_series :
    (Text → Text → Asm → Result Asm)
    → Source
    → Text
    → List (Text × InstrTree)
    → ℕ
    → Asm
    → Result (ℕ × Asm)
parse_series parse src dir_path [] need s = ok (need, s)
parse_series parse src dir_path ((prefix, t) ∷ rest) need s =
    parse_tree parse src dir_path prefix (instr_tree t) need s >>= λ x.
    parse_series parse src dir_path rest (x.0) (x.1)

-- The instructions that the trees stand for.
abbrev pub Stand : List (Text × InstrTree) → List Instruction → Type 0
Stand [] [] = Unit {0}
Stand [] (i ∷ is) = ⊥
Stand ((prefix, t) ∷ rest) [] = ⊥
Stand ((prefix, t) ∷ rest) (i ∷ is) = (instr_of t ≡ ok i) × Stand rest is

one_zero : (m n : ℕ) → (m == 0 || n == 0) ≡ true → (m ≡ 0) ⊎ (n ≡ 0)
one_zero zero n h = inl refl
one_zero (suc m) zero h = inr refl
one_zero (suc m) (suc n) h = absurd (ground arith)

-- What an instruction that is taken has passed.
parse_instr-parts :
    (t : InstrTree) (prefix : Text) (need : ℕ) (s : Asm) {x : (ℕ × ℕ) × Asm}
    → parse_instr t prefix need s ≡ ok x
    → (i : Instruction) × (instr_of t ≡ ok i)
      × Suffixed need i.cond
      × ((num_cond i ≡ 0) ⊎ (need ≡ 0))
      × (x.0.0 ≡ num_cond i)
unfolding parse_instr
parse_instr-parts t prefix need s h =
    let add : Instruction → Result ((ℕ × ℕ) × Asm) =
      λ i. add_item prefix (instr i) s.addr s >>= λ s'. ok ((num_cond i, size i), s') in
    let (rest, suffix) =
      then_parts (check_suffix t.cond need s.items)
        (instr_of t >>= λ i. guard (num_cond i == 0 || need == 0) abort >> add i) h in
    let (i, more, made) =
      parts (instr_of t) (λ i. guard (num_cond i == 0 || need == 0) abort >> add i) rest in
    let (added, alone) = then_parts (guard (num_cond i == 0 || need == 0) abort) (add i) more in
    let (s', done, e) =
      parts (add_item prefix (instr i) s.addr s) (λ s'. ok ((num_cond i, size i), s')) added in
    (
      i,
      made,
      subst (λ c. Suffixed need c) (sym (instr_of-cond t made))
          (check_suffix-Suffixed t.cond need s.items suffix.1),
      one_zero (num_cond i) need (guard-true (num_cond i == 0 || need == 0) abort alone.1),
      cc,
    )

step_instr-parts :
    (need : ℕ) (r : Result ((ℕ × ℕ) × Asm)) {y : ℕ × Asm}
    → step_instr need r ≡ ok y
    → (x : (ℕ × ℕ) × Asm) × (r ≡ ok x) × (y.0 ≡ next_need x.0.0 need)
step_instr-parts need (err e) h = absurd (cc h)
step_instr-parts need (ok ((new, size), s)) h = (((new, size), s), refl, cc)

parse_tree-parts :
    (parse : Text → Text → Asm → Result Asm) (src : Source) (dir_path prefix : Text) (t : InstrTree)
    (need : ℕ) (s : Asm) {y : ℕ × Asm}
    → parse_tree parse src dir_path prefix (instr_tree t) need s ≡ ok y
    → (i : Instruction) × (instr_of t ≡ ok i)
      × Suffixed need i.cond
      × ((num_cond i ≡ 0) ⊎ (need ≡ 0))
      × (y.0 ≡ next_need (num_cond i) need)
unfolding parse_tree
parse_tree-parts parse src dir_path prefix t need s h =
    let (x, taken, e) = step_instr-parts need (parse_instr t prefix need s) h in
    let (i, made, suffix, alone, n) = parse_instr-parts t prefix need s taken in
    (i, made, suffix, alone, e ∙ ap (λ m. next_need m need) n)

parse_series-Accepts :
    (parse : Text → Text → Asm → Result Asm) (src : Source) (dir_path : Text)
    (ts : List (Text × InstrTree)) (need : ℕ) (s s' : Asm)
    → parse_series parse src dir_path ts need s ≡ ok (0, s')
    → (is : List Instruction) × Stand ts is × Accepts need is
parse_series-Accepts parse src dir_path [] need s s' h = ([], tt, cc)
parse_series-Accepts parse src dir_path ((prefix, t) ∷ rest) need s s' h =
    let (y, next, first) =
      parts (parse_tree parse src dir_path prefix (instr_tree t) need s)
        (λ x. parse_series parse src dir_path rest (x.0) (x.1)) h in
    let (i, made, suffix, alone, n) = parse_tree-parts parse src dir_path prefix t need s first in
    let (is, stand, accepts) = parse_series-Accepts parse src dir_path rest (y.0) (y.1) s' next in
    (i ∷ is, (made, stand), (suffix, alone, subst (λ m. Accepts m is) n accepts))

-- A series of instructions that the first pass takes, from a state in which no suffix is missing
-- to one in which none is, has the suffixes that its masks are encoded from: `encode` computes the
-- mask of each instruction from those behind it.
pub parse_series-AreMasked :
    (parse : Text → Text → Asm → Result Asm) (src : Source) (dir_path : Text)
    (ts : List (Text × InstrTree)) (s s' : Asm)
    → parse_series parse src dir_path ts 0 s ≡ ok (0, s')
    → (is : List Instruction) × Stand ts is × AreMasked is
parse_series-AreMasked parse src dir_path ts s s' h =
    let (is, stand, accepts) = parse_series-Accepts parse src dir_path ts 0 s s' h in
    (is, stand, Accepts-AreMasked 0 is accepts)
