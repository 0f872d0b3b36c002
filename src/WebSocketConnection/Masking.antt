-- ===== src/WebSocketConnection/Masking.antt =====
-- src/WebSocketConnection.cpp: the loop of `decode` that unmasks, against the masking of RFC 6455.
use mathlib.Core.Path.{ap₂}
use websocket_engine.Base.{
  ℕ, suc, ◌+◌, ◌%◌, bit_xor, ◌≡◌, refl, sym, ap, ◌∙◌, List, [], ◌∷◌, ◌++◌, arith, get_or, length,
}
use websocket_engine.WebSocketConnection.Decode.{unmask}
use websocket_engine.WebSocketConnection.Payload.{unmask_twice}

-- How a client masks: each byte with the first byte of the key, which is then moved to the key's end.
abbrev pub masked : List ℕ → List ℕ → List ℕ
masked key [] = []
masked [] (x ∷ xs) = x ∷ xs
masked (k ∷ key) (x ∷ xs) = bit_xor x k ∷ masked (key ++ (k ∷ [])) xs

pub length-masked : (key xs : List ℕ) → length (masked key xs) ≡ length xs
length-masked key [] = refl
length-masked [] (x ∷ xs) = refl
length-masked (k ∷ key) (x ∷ xs) = ap suc (length-masked (key ++ (k ∷ [])) xs)

-- From offset `i` on, the loop masks with the key turned `i` times.
turned :
    (a b c d i : ℕ) (xs : List ℕ)
    → (let key = a ∷ b ∷ c ∷ d ∷ [] in
        (i % 4 ≡ 0 → unmask key i xs ≡ masked (a ∷ b ∷ c ∷ d ∷ []) xs)
        × (i % 4 ≡ 1 → unmask key i xs ≡ masked (b ∷ c ∷ d ∷ a ∷ []) xs)
        × (i % 4 ≡ 2 → unmask key i xs ≡ masked (c ∷ d ∷ a ∷ b ∷ []) xs)
        × (i % 4 ≡ 3 → unmask key i xs ≡ masked (d ∷ a ∷ b ∷ c ∷ []) xs))
unfolding unmask
turned a b c d i [] = (λ e. refl, λ e. refl, λ e. refl, λ e. refl)
turned a b c d i (x ∷ xs) =
    let (f0, f1, f2, f3) = turned a b c d (i + 1) xs in
    (
      λ e. ap₂ ◌∷◌ (byte e) (f1 (omega arith)),
      λ e. ap₂ ◌∷◌ (byte e) (f2 (omega arith)),
      λ e. ap₂ ◌∷◌ (byte e) (f3 (omega arith)),
      λ e. ap₂ ◌∷◌ (byte e) (f0 (omega arith)),
    )
  where
    byte :
        {n : ℕ}
        → i % 4 ≡ n
        → bit_xor x (get_or (a ∷ b ∷ c ∷ d ∷ []) (i % 4) 0)
          ≡ bit_xor x (get_or (a ∷ b ∷ c ∷ d ∷ []) n 0)
    byte e = ap (λ n. bit_xor x (get_or (a ∷ b ∷ c ∷ d ∷ []) n 0)) e

-- What a client has masked as RFC 6455 says, with a key of four bytes that it goes through again and
-- again, is unmasked to the bytes it was.
pub unmask-masked : (key xs : List ℕ) → length key ≡ 4 → unmask key 0 (masked key xs) ≡ xs
unmask-masked (a ∷ b ∷ c ∷ d ∷ []) xs four =
    ap (unmask (a ∷ b ∷ c ∷ d ∷ []) 0) (sym ((turned a b c d 0 xs).0 refl))
    ∙ unmask_twice (a ∷ b ∷ c ∷ d ∷ []) 0 xs
unmask-masked [] xs four = absurd (omega arith)
unmask-masked (a ∷ []) xs four = absurd (omega arith)
unmask-masked (a ∷ b ∷ []) xs four = absurd (omega arith)
unmask-masked (a ∷ b ∷ c ∷ []) xs four = absurd (omega arith)
unmask-masked (a ∷ b ∷ c ∷ d ∷ e ∷ key) xs four = absurd (omega arith)
