-- ===== src/Bench/Stores.antt =====
-- What the check of scripts/tb.py on the stored data means.
use idli_v.Prelude.{
  ℕ, ◌≡◌, refl, sym, ap, ap₂, ◌∙◌, arith, Bool, true, false, ◌&&◌, ◌||◌, List, [], ◌∷◌, Option,
  none, some, Result, ok, err, assertion, guard, guard-true, parts, then_parts, ◌>>=◌, ◌>>◌, ◌==◌,
  ==→eq, if◌then◌else◌, &&-left, &&-right, Bool-cases, Option-cases, inl, inr,
}
use idli_v.Bench.{Board, get, Bench}
use idli_v.Bench.Check.{
  with_scores, insert, sorted, rtl_word, rtl_words, sim_words, board_eq, check_mem_writes,
}

abbrev has : ℕ → List ℕ → Bool
has a [] = false
has a (x ∷ xs) = x == a || has a xs

abbrev pub is_some {ℓ} : {A : Type ℓ} → Option A → Bool
is_some none = false
is_some (some v) = true

has-insert : (a b : ℕ) (xs : List ℕ) → has a (insert b xs) ≡ (b == a || has a xs)
has-insert a b [] = refl
has-insert a b (x ∷ xs) = ground (arith, has-insert a b xs)

has-sorted :
    (a : ℕ) (d : Board ℕ) (xs : List ℕ) → has a (sorted d xs) ≡ (is_some (get a d) || has a xs)
has-sorted a [] xs = refl
has-sorted a ((k, v) ∷ d) xs = ground (arith, has-insert a k (sorted d xs), has-sorted a d xs)

get-sim_words :
    (a : ℕ) (d : Board ℕ) (xs : List ℕ)
    → get a (sim_words d xs) ≡ (if has a xs then get a d else none)
unfolding sim_words
get-sim_words a d [] = refl
get-sim_words a d (x ∷ xs) = elim (Bool-cases (x == a)) [
  | inl e ↦
      let same : get x d ≡ get a d = ap (λ (t : ℕ). get t d) (==→eq x a e) in
      elim (Option-cases (get x d)) [
        | inl n ↦ rw (n, sim_words, e) (get-sim_words a d xs ∙ ground (arith, n, same))
        | inr (v, n) ↦ rw (n, sim_words) (rw e (sym n ∙ same))
      ]
  | inr e ↦ elim (Option-cases (get x d)) [
    | inl n ↦ rw (n, sim_words, e) (get-sim_words a d xs)
    | inr (v, n) ↦ rw (n, sim_words) (rw e (get-sim_words a d xs))
  ]
]

board_eq→eq : (xs ys : Board ℕ) → board_eq xs ys ≡ true → xs ≡ ys
board_eq→eq [] [] h = refl
board_eq→eq [] (y ∷ ys) h = ground arith
board_eq→eq (x ∷ xs) [] h = ground arith
board_eq→eq ((a, v) ∷ xs) ((b, w) ∷ ys) h =
    let pair = &&-left (a == b && v == w) (board_eq xs ys) h in
    ap₂ ◌∷◌
      (ap₂ (λ (x y : ℕ). (x, y)) (==→eq a b (&&-left (a == b) (v == w) pair))
        (==→eq v w (&&-right (a == b) (v == w) pair)))
      (board_eq→eq xs ys (&&-right (a == b && v == w) (board_eq xs ys) h))

abbrev to_option {ℓ} : {A : Type ℓ} → Result A → Option A
to_option (ok a) = some a
to_option (err e) = none

get-first :
    (a x w : ℕ) (rest : Board ℕ) (xs : List ℕ) (b : Bench)
    → rtl_word b x ≡ ok w
    → get a rest ≡ (if has a xs then to_option (rtl_word b a) else none)
    → get a ((x, w) ∷ rest) ≡ (if has a (x ∷ xs) then to_option (rtl_word b a) else none)
get-first a x w rest xs b e h = elim (Bool-cases (x == a)) [
  | inl t ↦
      let same : rtl_word b a ≡ ok w = ap (rtl_word b) (sym (==→eq x a t)) ∙ e in rw (t, same) refl
  | inr t ↦ rw t h
]

get-rtl_words :
    (a : ℕ) (b : Bench) (xs : List ℕ) {words : Board ℕ}
    → rtl_words b xs ≡ ok words
    → get a words ≡ (if has a xs then to_option (rtl_word b a) else none)
unfolding rtl_words
get-rtl_words a b [] h = let empty : [] ≡ _ = cc h in ap (get a) (sym empty)
get-rtl_words a b (x ∷ xs) {words} h =
    let (w, h1, e) = parts (rtl_word b x) (λ w. rtl_words b xs >>= λ rest. ok ((x, w) ∷ rest)) h in
    let (rest, h2, r) = parts (rtl_words b xs) (λ rest. ok ((x, w) ∷ rest)) h1 in
    let whole : (x, w) ∷ rest ≡ words = cc h2 in
    ap (get a) (sym whole) ∙ get-first a x w rest xs b e (get-rtl_words a b xs r)

-- What the hardware has stored since the last check: the word at an address that one of the
-- memories was written at.
abbrev pub rtl_stored : Bench → ℕ → Option ℕ
rtl_stored b a =
    if is_some (get a b.rtl_st_data_lo) || is_some (get a b.rtl_st_data_hi)
    then to_option (rtl_word b a)
    else none

all_keys : (v : Option ℕ) → (if is_some v || false then v else none) ≡ v
all_keys none = refl
all_keys (some v) = refl

or_false : (t : Bool) → (t || false) ≡ t
or_false false = refl
or_false true = refl

has-written :
    (b : Bench) (a : ℕ)
    → has a (sorted b.rtl_st_data_lo (sorted b.rtl_st_data_hi []))
      ≡ (is_some (get a b.rtl_st_data_lo) || is_some (get a b.rtl_st_data_hi))
has-written b a =
    has-sorted a b.rtl_st_data_lo (sorted b.rtl_st_data_hi [])
    ∙ ap (λ (t : Bool). is_some (get a b.rtl_st_data_lo) || t)
        (has-sorted a b.rtl_st_data_hi [] ∙ or_false (is_some (get a b.rtl_st_data_hi)))

get-all : (a : ℕ) (d : Board ℕ) → get a (sim_words d (sorted d [])) ≡ get a d
get-all a d = get-sim_words a d (sorted d []) ∙ rw (has-sorted a d []) (all_keys (get a d))

-- A check of the stores that passes has found the same stores on both sides: at every address the
-- word that the behavioural model stored, if it did, is the one that the hardware stored.
pub check_mem_writes-rtl_stored :
    (b b' : Bench) (a : ℕ)
    → check_mem_writes b ≡ ok b'
    → get a b.sim.env.sim_st_data ≡ rtl_stored b a
unfolding check_mem_writes
check_mem_writes-rtl_stored b b' a h =
    let st = b.sim.env.sim_st_data in
    let addrs = sorted b.rtl_st_data_lo (sorted b.rtl_st_data_hi []) in
    let rest : Board ℕ → Result Bench = λ words.
      guard (board_eq (sim_words st (sorted st [])) words) assertion
      >> ok (
          with_scores (λ t. record t { sim_st_data = [] })
            (record b { rtl_st_data_lo = []; rtl_st_data_hi = [] })) in
    let (words, h1, e) = parts (rtl_words b addrs) rest h in
    let (done, test) =
      then_parts (guard (board_eq (sim_words st (sorted st [])) words) assertion) _ h1 in
    let same = board_eq→eq (sim_words st (sorted st [])) words (guard-true _ assertion test.1) in
    sym (get-all a st)
    ∙ (ap (get a) same
        ∙ (get-rtl_words a b addrs e
            ∙ ap (λ (t : Bool). if t then to_option (rtl_word b a) else none) (has-written b a)))
