-- ===== src/Bench/Stream/Compare.antt =====
-- The loop of `_check_uart_data` in scripts/tb.py: both streams against the reference.
use mathlib.Core.List.{append_assoc, append-nil}
use idli_v.Prelude.{
  ℕ, ◌≡◌, refl, sym, ap, ap₂, subst, ◌∙◌, true, List, [], ◌∷◌, ◌++◌, Option, none, some, ok,
  assertion, guard, guard-true, parts, then_parts, ◌>>=◌, ◌==◌, ==→eq, ◌⊎◌, inl, inr,
}
use idli_v.Bench.Check.{Uarts, take_ref, compare}

-- The words that were seen so far, against the reference, what is left of it, and the exit code.
abbrev pub Read : List ℕ → List ℕ → List ℕ → Option ℕ → Type 0
Read ref0 seen ref code =
    ((ref0 ≡ seen ++ ref) × (code ≡ none))
    ⊎ ((codes : List ℕ) × (c : ℕ) × (seen ≡ ref0 ++ (codes ++ c ∷ []))
        × (ref ≡ [])
        × (code ≡ some c))

-- One more code behind the reference.
next_code :
    (ref0 seen codes : List ℕ) (word : ℕ)
    → seen ≡ ref0 ++ codes
    → seen ++ word ∷ [] ≡ ref0 ++ (codes ++ word ∷ [])
next_code ref0 seen codes word h =
    ap (λ (t : List ℕ). t ++ word ∷ []) h ∙ append_assoc ref0 codes (word ∷ [])

take_ref-Read :
    (ref0 seen : List ℕ) (word : ℕ) (ref : List ℕ) (u u' : Uarts)
    → Read ref0 seen ref u.code
    → u.ref ≡ ref
    → take_ref word ref u ≡ ok u'
    → Read ref0 (seen ++ word ∷ []) u'.ref u'.code
take_ref-Read ref0 seen word (r ∷ ref) u u' (inl (whole, fresh)) same h =
    let (done, test) = then_parts (guard (r == word) assertion) (ok (record u { ref = ref })) h in
    let agree = ==→eq r word (guard-true (r == word) assertion test.1) in
    let result : record u { ref = ref } ≡ u' = cc done in
    subst (λ (v : Uarts). Read ref0 (seen ++ word ∷ []) v.ref v.code) result
      (inl (
        whole ∙ (ap (λ (t : ℕ). seen ++ t ∷ ref) agree ∙ sym (append_assoc seen (word ∷ []) ref)),
        fresh,
      ))
take_ref-Read ref0 seen word [] u u' (inl (whole, fresh)) same h =
    let result : record u { code = some word; ended = true } ≡ u' = cc h in
    subst (λ (v : Uarts). Read ref0 (seen ++ word ∷ []) v.ref v.code) result
      (inr (
        [],
        word,
        ap (λ (t : List ℕ). t ++ word ∷ []) (sym (append-nil seen) ∙ sym whole),
        same,
        refl,
      ))
take_ref-Read ref0 seen word [] u u' (inr (codes, c, all, empty, code)) same h =
    let result : record u { code = some word; ended = true } ≡ u' = cc h in
    subst (λ (v : Uarts). Read ref0 (seen ++ word ∷ []) v.ref v.code) result
      (inr (codes ++ c ∷ [], word, next_code ref0 seen (codes ++ c ∷ []) word all, same, refl))
take_ref-Read ref0 seen word (r ∷ ref) u u' (inr (codes, c, all, empty, code)) same h =
    absurd (cc empty)

-- What the loop makes of words that it compares.
pub record Compared (ref0 seen xs ys : List ℕ) (u : Uarts) : Type 0 where
  pub new : List ℕ
  pub from_sim : xs ≡ new ++ u.sim
  pub from_rtl : ys ≡ new ++ u.rtl
  pub read : Read ref0 (seen ++ new) u.ref u.code

compare-stop :
    (ref0 seen xs ys : List ℕ) (u u' : Uarts)
    → Read ref0 seen u.ref u.code
    → ok (record u { sim = xs; rtl = ys }) ≡ ok u'
    → Compared ref0 seen xs ys u'
compare-stop ref0 seen xs ys u u' read h =
    let result : record u { sim = xs; rtl = ys } ≡ u' = cc h in
    subst (Compared ref0 seen xs ys) result (record {
      new = [];
      from_sim = refl;
      from_rtl = refl;
      read = subst (λ (t : List ℕ). Read ref0 t u.ref u.code) (sym (append-nil seen)) read;
    })

pub compare-Compared :
    (ref0 seen xs ys : List ℕ) (u u' : Uarts)
    → Read ref0 seen u.ref u.code
    → compare xs ys u ≡ ok u'
    → Compared ref0 seen xs ys u'
unfolding compare
compare-Compared ref0 seen (x ∷ xs) (y ∷ ys) u u' read h =
    let (h1, test) =
      then_parts (guard (x == y) assertion) (take_ref y u.ref u >>= λ v. compare xs ys v) h in
    let (v, h2, taken) = parts (take_ref y u.ref u) (λ v. compare xs ys v) h1 in
    let same = ==→eq x y (guard-true (x == y) assertion test.1) in
    let c =
      compare-Compared ref0 (seen ++ y ∷ []) xs ys v u'
        (take_ref-Read ref0 seen y u.ref u v read refl taken) h2 in
    record {
      new = y ∷ c.new;
      from_sim = ap₂ ◌∷◌ same c.from_sim;
      from_rtl = ap (◌∷◌ y) c.from_rtl;
      read =
          subst (λ (t : List ℕ). Read ref0 t u'.ref u'.code) (append_assoc seen (y ∷ []) c.new)
            c.read;
    }
compare-Compared ref0 seen [] ys u u' read h = compare-stop ref0 seen [] ys u u' read h
compare-Compared ref0 seen (x ∷ xs) [] u u' read h = compare-stop ref0 seen (x ∷ xs) [] u u' read h
