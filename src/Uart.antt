-- ===== src/Uart.antt =====
-- scripts/uart.py: the two ends of the serial line that the test bench drives.
pub mod Line
use idli_v.Prelude.{
  ℕ, zero, suc, ◌+◌, ◌*◌, ◌/◌, ◌%◌, ◌^◌, Bool, true, false, List, [], ◌∷◌, ◌++◌, Option, none, some,
  bit_or, Result, ok, err, exception, assertion, index_error, leb, ◌==◌, if◌then◌else◌, length,
}

-- `'idle'`, and `'data0'` to `'data7'`.
pub data RxState : Type 0 where
  rx_idle : RxState
  rx_data : ℕ → RxState

pub record Urx : Type 0 where
  pub state : RxState
  pub buf : List ℕ

abbrev pub urx_init : Urx
urx_init = record { state = rx_idle; buf = [] }

-- `self.buf[-1] |= x`
abbrev or_last : List ℕ → ℕ → Result (List ℕ)
or_last [] x = err index_error
or_last (b ∷ []) x = ok (bit_or b x ∷ [])
or_last (b ∷ c ∷ bs) x = elim (or_last (c ∷ bs) x) [ err e ↦ err e | ok bs' ↦ ok (b ∷ bs') ]

-- With two bytes in the buffer their word goes to the callback.
abbrev deliver : List ℕ → Option ℕ × Urx
deliver (lo ∷ hi ∷ rest) = (some (bit_or lo (hi * 2 ^ 8)), record { state = rx_idle; buf = rest })
deliver buf = (none, record { state = rx_idle; buf = buf })

abbrev receive_bit : ℕ → Result (List ℕ) → Result (Option ℕ × Urx)
receive_bit n (err e) = err e
receive_bit n (ok buf) =
    if n + 1 == 8
    then ok (deliver buf)
    else ok (none, record { state = rx_data (n + 1); buf = buf })

-- `URX.rising_edge`: the word that the callback gets, if any.
abbrev receive : RxState → ℕ → Urx → Result (Option ℕ × Urx)
receive rx_idle value u =
    if value == 0
    then ok (none, record { state = rx_data 0; buf = u.buf ++ 0 ∷ [] })
    else ok (none, u)
receive (rx_data n) value u = receive_bit n (or_last u.buf (value % 2 * 2 ^ n))

unfoldable pub urx_edge : Option ℕ → Urx → Result (Option ℕ × Urx)
urx_edge none u = err exception
urx_edge (some value) u = receive u.state value u

pub data TxState : Type 0 where
  idle_lo data_out idle_hi start_hi : TxState

pub record Utx : Type 0 where
  pub words : List ℕ
  pub bits : ℕ
  pub state : TxState

abbrev pub utx_init : List ℕ → Utx
utx_init words = record { words = words; bits = 0; state = idle_lo }

-- A bit of the first word: after eight the line goes idle, after sixteen the word is done.
abbrev send_bit : List ℕ → ℕ → Result (ℕ × Utx)
send_bit [] bits = err index_error
send_bit (w ∷ ws) bits =
    if bits + 1 == 8
    then ok (w % 2, record { words = (w / 2) ∷ ws; bits = bits + 1; state = idle_hi })
    else if bits + 1 == 16
    then ok (w % 2, record { words = ws; bits = bits + 1; state = idle_lo })
    else ok (w % 2, record { words = (w / 2) ∷ ws; bits = bits + 1; state = data_out })

abbrev start : List ℕ → Utx → Result (ℕ × Utx)
start [] t = err assertion
start (w ∷ ws) t = ok (0, record t { state = data_out; bits = 0 })

-- `UTX.rising_edge`: the level of the line.
abbrev send : TxState → Bool → Utx → Result (ℕ × Utx)
send idle_lo true t = start t.words t
send idle_lo false t = ok (1, t)
send data_out ready t = send_bit t.words t.bits
send idle_hi ready t = ok (1, record t { state = start_hi })
send start_hi ready t = ok (0, record t { state = data_out })

unfoldable pub utx_edge : Option Bool → Utx → Result (ℕ × Utx)
utx_edge none t = err exception
utx_edge (some ready) t = send t.state ready t
