-- ===== src/Util/Dotted.antt =====
-- include/ws/util.h: what the text of an address says.
use websocket_engine.Base.{
  ℕ, ◌+◌, ◌-◌, ◌*◌, ◌^◌, ◌/◌, ◌%◌, ◌≤◌, ◌<◌, ◌≡◌, ap, ◌∙◌, ◌⊎◌, inl, inr, List, [], ◌∷◌, ◌++◌,
  arith, ◌==◌, if◌then◌else◌, length, get_or, length-append,
}
use websocket_engine.Base.Text.{decimal, decimal_one, decimal_two, decimal_three}
use websocket_engine.Buffer.{network}
use websocket_engine.Buffer.Numbers.{IsByte}
use websocket_engine.Util.{parse_addr}

-- The numbers that a text with dots between them says.
pub dotted : ℕ → List ℕ → List ℕ
dotted n [] = n ∷ []
dotted n (c ∷ cs) = if c == b'.' then n ∷ dotted 0 cs else dotted (n * 10 + (c - 48)) cs

sizes : (n : ℕ) → IsByte n → (n < 10) ⊎ ((10 ≤ n) × (n < 100)) ⊎ ((100 ≤ n) × (n < 1000))
sizes n h = grind arith

decimal-dotted :
    (n : ℕ) (rest : List ℕ) → IsByte n → dotted 0 (decimal n ++ (b'.' ∷ rest)) ≡ n ∷ dotted 0 rest
unfolding dotted
decimal-dotted n rest h = elim (sizes n h) [
  | inl one ↦ rw (decimal_one n one) (ground arith)
  | inr (inl two) ↦ rw (decimal_two n two.0 two.1) (ground arith)
  | inr (inr three) ↦ rw (decimal_three n three.0 three.1) (ground arith)
]

decimal-dotted_end : (n : ℕ) → IsByte n → dotted 0 (decimal n) ≡ n ∷ []
unfolding dotted
decimal-dotted_end n h = elim (sizes n h) [
  | inl one ↦ rw (decimal_one n one) (ground arith)
  | inr (inl two) ↦ rw (decimal_two n two.0 two.1) (ground arith)
  | inr (inr three) ↦ rw (decimal_three n three.0 three.1) (ground arith)
]

length-decimal : (n : ℕ) → IsByte n → length (decimal n) ≤ 3
length-decimal n h = elim (sizes n h) [
  | inl one ↦ rw (decimal_one n one) (omega arith)
  | inr (inl two) ↦ rw (decimal_two n two.0 two.1) (omega arith)
  | inr (inr three) ↦ rw (decimal_three n three.0 three.1) (omega arith)
]

length-dotted_quad :
    (a b c d : ℕ)
    → IsByte a
    → IsByte b
    → IsByte c
    → IsByte d
    → length (decimal a ++ (b'.' ∷ decimal b ++ (b'.' ∷ decimal c ++ (b'.' ∷ decimal d)))) ≤ 15
length-dotted_quad a b c d ha hb hc hd = omega (
  arith,
  length-append (decimal a) (b'.' ∷ decimal b ++ (b'.' ∷ decimal c ++ (b'.' ∷ decimal d))),
  length-append (decimal b) (b'.' ∷ decimal c ++ (b'.' ∷ decimal d)),
  length-append (decimal c) (b'.' ∷ decimal d),
  length-decimal a ha,
  length-decimal b hb,
  length-decimal c hc,
  length-decimal d hd,
)

dotted_quad :
    (a b c d : ℕ)
    → IsByte a
    → IsByte b
    → IsByte c
    → IsByte d
    → dotted 0 (decimal a ++ (b'.' ∷ decimal b ++ (b'.' ∷ decimal c ++ (b'.' ∷ decimal d))))
      ≡ a ∷ b ∷ c ∷ d ∷ []
dotted_quad a b c d ha hb hc hd = rw (
  decimal-dotted a (decimal b ++ (b'.' ∷ decimal c ++ (b'.' ∷ decimal d))) ha,
  decimal-dotted b (decimal c ++ (b'.' ∷ decimal d)) hb,
  decimal-dotted c (decimal d) hc,
  decimal-dotted_end d hd,
)

network-port : (h l : ℕ) → IsByte h → IsByte l → network 2 (h * 2 ^ 8 + l) ≡ h ∷ l ∷ []
network-port h l hh hl =
    ap (λ x. x ∷ (h * 2 ^ 8 + l) / 1 % 256 ∷ []) (omega arith) ∙ ap (λ x. h ∷ x ∷ []) (omega arith)

-- `parseAddr` on any bytes: the text, with its NUL, fits into the 16 bytes of `ip`; its numbers are
-- the four bytes behind the port's two; and the port is those two in network order.
pub parse_addr_lem :
    (buf : List ℕ) (offset : ℕ)
    → ((i : ℕ) → IsByte (get_or buf i 0))
    → (length (parse_addr buf offset).ip + 1 ≤ 16)
      × (dotted 0 (parse_addr buf offset).ip
          ≡ get_or buf (2 + offset) 0
            ∷ get_or buf (3 + offset) 0
            ∷ get_or buf (4 + offset) 0
            ∷ get_or buf (5 + offset) 0
            ∷ [])
      × (network 2 (parse_addr buf offset).port
          ≡ get_or buf (0 + offset) 0 ∷ get_or buf (1 + offset) 0 ∷ [])
unfolding parse_addr
parse_addr_lem buf offset bytes = (
  omega (
    arith,
    length-dotted_quad (get_or buf (2 + offset) 0) (get_or buf (3 + offset) 0)
        (get_or buf (4 + offset) 0) (get_or buf (5 + offset) 0) (bytes (2 + offset))
        (bytes (3 + offset)) (bytes (4 + offset)) (bytes (5 + offset)),
  ),
  dotted_quad (get_or buf (2 + offset) 0) (get_or buf (3 + offset) 0) (get_or buf (4 + offset) 0)
      (get_or buf (5 + offset) 0) (bytes (2 + offset)) (bytes (3 + offset)) (bytes (4 + offset))
      (bytes (5 + offset)),
  network-port (get_or buf (0 + offset) 0) (get_or buf (1 + offset) 0) (bytes (0 + offset))
      (bytes (1 + offset)),
)
