-- ===== src/Uart/Line.antt =====
-- The two ends of scripts/uart.py on one line: what `UTX` sends, `URX` receives.
use idli_v.Prelude.{
  ℕ, zero, suc, ◌+◌, ◌*◌, ◌/◌, ◌%◌, ◌^◌, ◌<◌, ◌≤◌, ◌≡◌, refl, ap, ap₂, ◌∙◌, arith, bit_or, Bool,
  true, false, List, [], ◌∷◌, ◌++◌, Option, none, some, ok, err, Result, Result-cases, replicate,
  length, inl, inr, sym,
}
use idli_v.Prelude.Fields.{bit_or_fields_low, bit_or_above, pow-next}
use mathlib.Core.List.{append-nil, append_assoc}
use idli_v.Uart.{Urx, Utx, urx_init, urx_edge, utx_edge, idle_lo}

-- Both ends after some cycles, and the words that the callback got.
pub record Line : Type 0 where
  pub got : List ℕ
  pub tx : Utx
  pub rx : Urx

abbrev add_word : Option ℕ → List ℕ → List ℕ
add_word none got = got
add_word (some w) got = got ++ w ∷ []

-- One cycle: `UTX` drives the line by the ready signal, and `URX` samples it.
unfoldable pub line_step : Bool → Line → Result Line
unfolding urx_edge utx_edge
line_step ready l = elim (utx_edge (some ready) l.tx) [
  | err e ↦ err e
  | ok (out, tx') ↦ elim (urx_edge (some out) l.rx) [
    | err e ↦ err e
    | ok (w, rx') ↦ ok (record { got = add_word w l.got; tx = tx'; rx = rx' })
  ]
]

abbrev pub line_run : List Bool → Line → Result Line
line_run [] l = ok l
line_run (ready ∷ rs) l = elim (line_step ready l) [ err e ↦ err e | ok l' ↦ line_run rs l' ]

-- The eight bits of a byte, one on top of the others.
abbrev collect : ℕ → ℕ → ℕ → ℕ → ℕ
collect zero i acc v = acc
collect (suc left) i acc v = collect left (i + 1) (bit_or acc (v % 2 % 2 * 2 ^ i)) (v / 2)

-- The low bits of a number, the lowest first.
abbrev low_bits : ℕ → ℕ → ℕ
low_bits zero v = 0
low_bits (suc n) v = v % 2 + 2 * low_bits n (v / 2)

next_acc : (i acc b : ℕ) → acc < 2 ^ i → b ≤ 1 → acc + 2 ^ i * b < 2 ^ (i + 1)
next_acc i acc zero h k = rw pow-next (omega arith)
next_acc i acc (suc zero) h k = rw pow-next (omega arith)
next_acc i acc (suc (suc b)) h k = absurd (omega arith)

collect_lem :
    (left i acc v : ℕ) → acc < 2 ^ i → collect left i acc v ≡ acc + 2 ^ i * low_bits left v
collect_lem zero i acc v h = omega arith
collect_lem (suc left) i acc v h =
    let b : v % 2 % 2 ≡ v % 2 = omega arith in
    rw (b, bit_or_above i acc (v % 2) h (omega arith))
      (collect_lem left (i + 1) (acc + 2 ^ i * (v % 2)) (v / 2)
          (next_acc i acc (v % 2) h (omega arith))
        ∙ rw pow-next (omega arith))

collect_byte : (v : ℕ) → collect 8 0 0 v ≡ v % 256
collect_byte v = collect_lem 8 0 0 v (omega arith) ∙ omega arith

abbrev pub at_rest : List ℕ → List ℕ → ℕ → Line
at_rest got words bits = record {
  got = got;
  tx = record { words = words; bits = bits; state = idle_lo };
  rx = urx_init;
}

-- The nineteen cycles of a word: the ready signal is set in the first, and does not matter after.
module _ (w : ℕ) (ws got : List ℕ) (n : ℕ) where
  one_word :
      (rs : List Bool)
      → length rs ≡ 18
      → line_run (true ∷ rs) (at_rest got (w ∷ ws) n)
        ≡ ok (
            at_rest
              (got
                ++ bit_or
                    (collect 8 0 0 w)
                    (collect 8 0 0 (w / 2 / 2 / 2 / 2 / 2 / 2 / 2 / 2) * 2 ^ 8)
                  ∷ [])
              ws
              16)
  unfolding line_step
  one_word
        (r1 ∷ r2 ∷ r3 ∷ r4 ∷ r5 ∷ r6 ∷ r7 ∷ r8 ∷ r9 ∷ r10 ∷ r11 ∷ r12 ∷ r13 ∷ r14 ∷ r15 ∷ r16 ∷ r17
          ∷ r18 ∷ [])
        h =
      refl
  one_word rs h = absurd (omega arith)

  pub word_sent :
      (rs : List Bool)
      → length rs ≡ 18
      → w < 2 ^ 16
      → line_run (true ∷ rs) (at_rest got (w ∷ ws) n) ≡ ok (at_rest (got ++ w ∷ []) ws 16)
  word_sent rs h fits =
      let high : ℕ = w / 2 / 2 / 2 / 2 / 2 / 2 / 2 / 2 in
      let low_byte = collect_byte w in
      let high_byte = collect_byte high in
      let whole : w % 256 + high % 256 * 2 ^ 8 ≡ w = omega arith in
      one_word rs h
      ∙ ap (λ (t : ℕ). ok (at_rest (got ++ t ∷ []) ws 16))
          (ap₂ (λ (x y : ℕ). bit_or x (y * 2 ^ 8)) low_byte high_byte
            ∙ (bit_or_fields_low 8 (high % 256) (w % 256) (omega arith) ∙ whole))

-- For each word: cycles without the ready signal, and the signal in the cycles of the word.
abbrev pub Frame : Type 0
Frame = ℕ × List Bool

abbrev pub schedule : List Frame → List Bool
schedule [] = []
schedule ((gap, rs) ∷ frames) = replicate gap false ++ ((true ∷ rs) ++ schedule frames)

abbrev pub AreFrames : List Frame → List ℕ → Type 0
AreFrames [] [] = Unit {0}
AreFrames (f ∷ frames) (w ∷ ws) = (length f.1 ≡ 18) × (w < 2 ^ 16) × AreFrames frames ws
AreFrames _ _ = ⊥

line_run-append :
    (xs ys : List Bool) (l l' : Line)
    → line_run xs l ≡ ok l'
    → line_run (xs ++ ys) l ≡ line_run ys l'
line_run-append [] ys l l' h = ground arith
line_run-append (x ∷ xs) ys l l' h = elim (Result-cases (line_step x l)) [
  | inl failed ↦ absurd (ground (arith, failed.1))
  | inr done ↦ rw (done.1, line_run) (line_run-append xs ys done.0 l' (ground (arith, done.1)))
]

line_run-gap :
    (gap : ℕ) (got ws : List ℕ) (n : ℕ)
    → line_run (replicate gap false) (at_rest got ws n) ≡ ok (at_rest got ws n)
unfolding line_step
line_run-gap zero got ws n = refl
line_run-gap (suc gap) got ws n = line_run-gap gap got ws n

-- From rest, with words of 16 bits to send, nineteen cycles for each with the ready signal in the
-- first, and any gaps without the signal between them, the words that are received are those that
-- were sent, in their order, whatever the signal is in the other eighteen cycles, and both ends
-- are at rest again.
pub line_words :
    (frames : List Frame) (ws more got : List ℕ) (n : ℕ)
    → AreFrames frames ws
    → (bits : ℕ) × (line_run (schedule frames) (at_rest got (ws ++ more) n)
        ≡ ok (at_rest (got ++ ws) more bits))
line_words [] [] more got n h =
    (n, ap (λ (t : List ℕ). ok (at_rest t more n)) (sym (append-nil got)))
line_words [] (w ∷ ws) more got n h = absurd h
line_words (f ∷ frames) [] more got n h = absurd h
line_words ((gap, rs) ∷ frames) (w ∷ ws) more got n h =
    let (bits, rest) = line_words frames ws more (got ++ w ∷ []) 16 h.2 in
    (
      bits,
      line_run-append (replicate gap false) ((true ∷ rs) ++ schedule frames)
            (at_rest got (w ∷ ws ++ more) n) (at_rest got (w ∷ ws ++ more) n)
            (line_run-gap gap got (w ∷ ws ++ more) n)
          ∙ (line_run-append (true ∷ rs) (schedule frames) (at_rest got (w ∷ ws ++ more) n)
                (at_rest (got ++ w ∷ []) (ws ++ more) 16)
                (word_sent w (ws ++ more) got n rs h.0 h.1)
              ∙ (rest
                  ∙ ap (λ (t : List ℕ). ok (at_rest t more bits)) (append_assoc got (w ∷ []) ws))),
    )
