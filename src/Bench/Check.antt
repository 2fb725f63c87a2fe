-- ===== src/Bench/Check.antt =====
-- The checks of scripts/tb.py: what the hardware did against what the behavioural model did.
use idli_v.Prelude.{
  ℕ, zero, suc, ◌+◌, ◌/◌, ◌%◌, ◌^◌, Bool, true, false, not, ◌&&◌, ◌||◌, List, [], ◌∷◌, Option, none,
  some, list_eq, Result, ok, err, assertion, type_error, guard, ◌>>=◌, ◌>>◌, ltb, ◌==◌,
  if◌then◌else◌,
}
use idli_v.Isa.Instr.{format_bin}
use idli_v.Split.{merge_bytes}
use idli_v.Bench.{Board, get, Scores, Rtl, Bench}

-- A change of what the callbacks keep.
abbrev pub with_scores : (Scores → Scores) → Bench → Bench
with_scores f b = record b { sim = record b.sim { env = f b.sim.env } }

-- `_check_pc`
unfoldable pub check_pc : Rtl → Bench → Result (Unit {0})
check_pc rtl b = guard (list_eq (format_bin 16 b.sim.pc) rtl.pc) assertion

-- One register.
abbrev pub check_reg : Rtl → ℕ → Option ℕ → Result (Unit {0})
check_reg rtl i none = guard (not (rtl.reg_sb / 2 ^ i % 2 == 1)) assertion
check_reg rtl i (some v) =
    guard (rtl.reg_sb / 2 ^ i % 2 == 1) assertion
    >> guard (list_eq (format_bin 16 v) (rtl.reg_data i)) assertion

-- The loop over the registers from `i` on.
unfoldable pub check_regs : Rtl → Board ℕ → ℕ → ℕ → Result (Unit {0})
check_regs rtl sb zero i = ok tt
check_regs rtl sb (suc left) i = check_reg rtl i (get i sb) >> check_regs rtl sb left (i + 1)

-- `_check_reg_writes`, without ZR.
unfoldable pub check_reg_writes : Rtl → Bench → Result (Rtl × Bench)
check_reg_writes rtl b =
    check_regs rtl b.sim.env.sim_reg_sb 15 1
    >> ok (record rtl { reg_sb = 0 }, with_scores (λ t. record t { sim_reg_sb = [] }) b)

abbrev pub bit_of : Bool → ℕ
bit_of true = 1
bit_of false = 0

-- `_check_pred_writes`
abbrev pub check_pred : Rtl → Option Bool → Bench → Result (Rtl × Bench)
check_pred rtl none b = guard (rtl.pred_sb == 0) assertion >> ok (rtl, b)
check_pred rtl (some v) b =
    guard (not (rtl.pred_sb == 0)) assertion
    >> guard (list_eq (format_bin 1 (bit_of v)) rtl.pred) assertion
    >> ok (record rtl { pred_sb = 0 }, with_scores (λ t. record t { sim_pred = none }) b)

unfoldable pub check_pred_writes : Rtl → Bench → Result (Rtl × Bench)
check_pred_writes rtl b = check_pred rtl b.sim.env.sim_pred b

-- `(n & -n).bit_length() - 1` for a number that is not 0: its lowest bit. The number is fuel enough.
abbrev pub lowest_bit : ℕ → ℕ → ℕ
lowest_bit zero n = 0
lowest_bit (suc fuel) n = let rest = lowest_bit fuel (n / 2) in if n % 2 == 1 then 0 else rest + 1

-- `_check_pin_writes`: the first pin that was written, if any.
abbrev pub check_pin : Rtl → Board ℕ → Bench → Result (Rtl × Bench)
check_pin rtl [] b = guard (rtl.pins_out_sb == 0) assertion >> ok (rtl, b)
check_pin rtl ((pin, v) ∷ rest) b =
    guard (2 ^ pin == rtl.pins_out_sb) assertion
    >> guard (list_eq (format_bin 1 v) (rtl.out_pins (lowest_bit rtl.pins_out_sb rtl.pins_out_sb)))
        assertion
    >> ok (record rtl { pins_out_sb = 0 }, with_scores (λ t. record t { sim_out_pin = [] }) b)

unfoldable pub check_pin_writes : Rtl → Bench → Result (Rtl × Bench)
check_pin_writes rtl b = check_pin rtl b.sim.env.sim_out_pin b

-- A set of addresses in ascending order, with one more.
abbrev pub insert : ℕ → List ℕ → List ℕ
insert a [] = a ∷ []
insert a (b ∷ bs) = if ltb a b then a ∷ b ∷ bs else if a == b then b ∷ bs else b ∷ insert a bs

-- The keys in ascending order, with those of another set.
abbrev pub sorted : Board ℕ → List ℕ → List ℕ
sorted [] addrs = addrs
sorted ((a, v) ∷ rest) addrs = insert a (sorted rest addrs)

-- `d.get(addr, data[addr])`
abbrev or_stored : Option ℕ → Option ℕ → Option ℕ
or_stored none stored = stored
or_stored (some v) stored = some v

abbrev merge_known : Option ℕ → Option ℕ → Result ℕ
merge_known (some lo) (some hi) = ok (merge_bytes lo hi)
merge_known _ _ = err type_error

-- The word that the hardware has at an address.
unfoldable pub rtl_word : Bench → ℕ → Result ℕ
rtl_word b addr =
    merge_known (or_stored (get addr b.rtl_st_data_lo) (b.mem_lo.content addr))
      (or_stored (get addr b.rtl_st_data_hi) (b.mem_hi.content addr))

unfoldable pub rtl_words : Bench → List ℕ → Result (Board ℕ)
unfolding rtl_word
rtl_words b [] = ok []
rtl_words b (a ∷ addrs) = rtl_word b a >>= λ w. rtl_words b addrs >>= λ rest. ok ((a, w) ∷ rest)

-- `{k: d[k] for k in sorted(d)}`
unfoldable pub sim_words : Board ℕ → List ℕ → Board ℕ
sim_words d [] = []
sim_words d (a ∷ addrs) = elim (get a d) [
  | none ↦ sim_words d addrs
  | some v ↦ (a, v) ∷ sim_words d addrs
]

abbrev pub board_eq : Board ℕ → Board ℕ → Bool
board_eq [] [] = true
board_eq ((a, v) ∷ xs) ((b, w) ∷ ys) = a == b && v == w && board_eq xs ys
board_eq _ _ = false

-- `_check_mem_writes`
unfoldable pub check_mem_writes : Bench → Result Bench
unfolding rtl_words sim_words
check_mem_writes b = do
  let st = b.sim.env.sim_st_data
  words ← rtl_words b (sorted b.rtl_st_data_lo (sorted b.rtl_st_data_hi []))
  guard (board_eq (sim_words st (sorted st [])) words) assertion
  ok (
      with_scores (λ t. record t { sim_st_data = [] })
        (record b { rtl_st_data_lo = []; rtl_st_data_hi = [] }))

-- The lists that `_check_uart_data` works on, with the exit code and the event.
pub record Uarts : Type 0 where
  pub sim : List ℕ
  pub rtl : List ℕ
  pub ref : List ℕ
  pub code : Option ℕ
  pub ended : Bool

-- A word that both have sent: the next one of the reference, or the exit code.
abbrev pub take_ref : ℕ → List ℕ → Uarts → Result Uarts
take_ref word (r ∷ ref) u = guard (r == word) assertion >> ok (record u { ref = ref })
take_ref word [] u = ok (record u { code = some word; ended = true })

-- The loop; its lists are those of the simulator and of the hardware.
unfoldable pub compare : List ℕ → List ℕ → Uarts → Result Uarts
compare (x ∷ xs) (y ∷ ys) u = do guard (x == y) assertion; u' ← take_ref y u.ref u; compare xs ys u'
compare xs ys u = ok (record u { sim = xs; rtl = ys })

abbrev pub is_empty {ℓ} : {A : Type ℓ} → List A → Bool
is_empty [] = true
is_empty (x ∷ xs) = false

-- `_check_uart_data`
unfoldable pub check_uart_data : Bool → Bench → Result Bench
unfolding compare
check_uart_data final b = do
  let old : Uarts = record {
    sim = b.sim.env.sim_utx;
    rtl = b.rtl_utx;
    ref = b.ref_utx;
    code = b.exit_code;
    ended = b.end_of_test;
  }
  u ← compare b.sim.env.sim_utx b.rtl_utx old
  guard (not final || is_empty u.sim) assertion
  guard (not final || is_empty u.rtl) assertion
  guard (not final || is_empty b.sim.env.sim_urx) assertion
  guard (not final || is_empty b.utx.words) assertion
  ok (
      with_scores (λ t. record t { sim_utx = u.sim })
        (record b { rtl_utx = u.rtl; ref_utx = u.ref; exit_code = u.code; end_of_test = u.ended }))
