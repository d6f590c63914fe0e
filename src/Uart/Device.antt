-- ===== src/Uart/Device.antt =====
-- The PL011 UART, which is hardware: a parameter, with what its reference manual says of it.
use charcoalos.Prelude.{
  ℕ, ◌^◌, ◌≤◌, ◌<◌, bit_and, ◌≡◌, Bool, true, false, not, [], ◌∷◌, ◌++◌, ◌==◌, u8, Bytes,
}

-- What the two registers do. The device goes on by itself between two accesses, so a read of the
-- flags gives a new state as well.
pub record Uart : Type 1 where
  pub State : Type 0
  pub read_flags : State → ℕ × State
  pub read_data : State → ℕ × State
  pub write_data : ℕ → State → State

-- Whether a bit of the flags is set.
abbrev pub flag : ℕ → ℕ → Bool
flag mask flags = not (bit_and flags mask == 0)

-- What can be seen of the transmitter and the receiver from outside: the bytes that were taken to be
-- sent, those that are on the line, those that come in from now on, how many reads of the flags the
-- bytes in the transmitter may still last, and how many the next byte to come.
pub record Line (d : Uart) : Type 0 where
  pub sent : d.State → Bytes
  pub transmitted : d.State → Bytes
  pub incoming : d.State → Bytes
  pub backlog : d.State → ℕ
  pub pause : d.State → ℕ
  pub patience : ℕ

module _ (d : Uart) (l : Line d) where
  open d use {State, read_flags, read_data, write_data}
  open l use {sent, transmitted, incoming, backlog, pause, patience}

  -- The transmitter. A byte that is written when the FIFO was seen not to be full is sent; the FIFO
  -- drains; BUSY is clear only when all bytes have left.
  pub record Transmits : Type 0 where
    pub backlog-le-patience : (s : State) → backlog s ≤ patience
    pub read_keeps : (s : State) → sent (read_flags s).1 ≡ sent s
    pub full_drains :
        (s : State) → flag (2 ^ 5) (read_flags s).0 ≡ true → backlog (read_flags s).1 < backlog s
    pub nonempty_drains :
        (s : State) → flag (2 ^ 7) (read_flags s).0 ≡ false → backlog (read_flags s).1 < backlog s
    pub busy_drains :
        (s : State) → flag (2 ^ 3) (read_flags s).0 ≡ true → backlog (read_flags s).1 < backlog s
    pub write_sends :
        (s : State) (c : ℕ)
        → flag (2 ^ 5) (read_flags s).0 ≡ false
        → sent (write_data c (read_flags s).1) ≡ sent s ++ (u8 c ∷ [])
    pub idle_transmitted :
        (s : State)
        → flag (2 ^ 3) (read_flags s).0 ≡ false
        → transmitted (read_flags s).1 ≡ sent (read_flags s).1

  -- The receiver. RXFE is clear when a byte is there, and a byte that is to come is there at last.
  pub record Receives : Type 0 where
    pub flags_keep : (s : State) → incoming (read_flags s).1 ≡ incoming s
    pub write_keeps : (s : State) (c : ℕ) → incoming (write_data c s) ≡ incoming s
    pub data_keeps : (s : State) → sent (read_data s).1 ≡ sent s
    pub ready_receives :
        (s : State)
        → flag (2 ^ 4) (read_flags s).0 ≡ false
        → incoming s ≡ u8 (read_data (read_flags s).1).0 ∷ incoming (read_data (read_flags s).1).1
    pub byte_comes :
        (s : State) (c : ℕ) (rest : Bytes)
        → incoming s ≡ c ∷ rest
        → flag (2 ^ 4) (read_flags s).0 ≡ true
        → pause (read_flags s).1 < pause s
