-- ===== src/Buffer/Trace.antt =====
-- include/ws/Buffer.h: any sequence of calls on a buffer, against a plain queue of bytes.
use websocket_engine.Base.{
  ℕ, ◌-◌, ◌<◌, ◌≡◌, refl, ◌∙◌, ◌⊎◌, inl, inr, List, [], ◌∷◌, ◌++◌, arith, leb, if◌then◌else◌,
  Bool-cases, length, take, drop, drop_all, Outcome, ok, abort, ◌>>=◌, lt→leb_false,
}
use websocket_engine.Buffer.{
  Buffer, readable_bytes, contents, ensure_space, write, read, read_string, unwrite, clear, shrink,
}
use websocket_engine.Buffer.Space.{IsValid, length-contents, ensure_space-HasRoom}
use websocket_engine.Buffer.Queue.{
  Holds, write-Holds, advance, advance-Holds, read_ok, read_string_ok, cut, cut-Holds, unwrite_ok,
}
use websocket_engine.Buffer.Trim.{shrink-Holds, clear-Holds}

-- What a client may ask of a buffer.
pub data Call : Type 0 where
  put : List ℕ → Call
  get room take_back trim : ℕ → Call
  get_all wipe : Call

-- The bytes that a call returns, and the buffer after it.
pub step : Buffer → Call → Outcome (List ℕ × Buffer)
step b (put src) = ok ([], write b src)
step b (get n) = read b n
step b (room n) = ok ([], (ensure_space b n).0)
step b (take_back n) = do b' ← unwrite b n; ok ([], b')
step b (trim n) = ok ([], shrink b n)
step b get_all = read_string b
step b wipe = ok ([], clear b)

-- The same of a queue. Only reading more than there is fails.
unfoldable pub queue_step : List ℕ → Call → Outcome (List ℕ × List ℕ)
queue_step q (put src) = ok ([], q ++ src)
queue_step q (get n) = if leb n (length q) then ok (take n q, drop n q) else abort
queue_step q (room n) = ok ([], q)
queue_step q (take_back n) = ok ([], take (length q - n) q)
queue_step q (trim n) = ok ([], take n q)
queue_step q get_all = ok (q, [])
queue_step q wipe = ok ([], [])

pub run : Buffer → List Call → Outcome (List (List ℕ) × List ℕ)
run b [] = ok ([], contents b)
run b (c ∷ cs) = do (out, b') ← step b c; (outs, last) ← run b' cs; ok (out ∷ outs, last)

unfoldable pub queue_run : List ℕ → List Call → Outcome (List (List ℕ) × List ℕ)
queue_run q [] = ok ([], q)
queue_run q (c ∷ cs) = do
  (out, q') ← queue_step q c
  (outs, last) ← queue_run q' cs
  ok (out ∷ outs, last)

-- One call fails on both sides, or gives the same bytes and leaves the same contents.
Agrees : Buffer → Call → Type 0
Agrees b c =
    ((step b c ≡ abort) × (queue_step (contents b) c ≡ abort))
    ⊎ ((out : List ℕ) × (q : List ℕ) × (b' : Buffer) × (step b c ≡ ok (out, b'))
        × (queue_step (contents b) c ≡ ok (out, q))
        × Holds b' q)

read_short : (b : Buffer) (n : ℕ) → readable_bytes b < n → read b n ≡ abort
unfolding read
read_short b n h = rw (lt→leb_false n (readable_bytes b) h)

step-Agrees : {b : Buffer} (c : Call) → IsValid b → Agrees b c
unfolding step queue_step Agrees
step-Agrees {b} (put src) v =
    inr ([], contents b ++ src, write b src, refl, refl, write-Holds src v)
step-Agrees {b} (get n) v = elim (Bool-cases (leb n (length (contents b)))) [
  | inl enough ↦ inr (
    take n (contents b),
    drop n (contents b),
    advance b n,
    read_ok n v (ground (arith, length-contents v)),
    rw enough,
    advance-Holds n v (ground (arith, length-contents v)),
  )
  | inr short ↦ inl (read_short b n (ground (arith, length-contents v)), rw short)
]
step-Agrees {b} (room n) v =
    let h = ensure_space-HasRoom n v in
    inr
      ([], contents b, (ensure_space b n).0, refl, refl, record { valid = h.valid; held = h.kept })
step-Agrees {b} (take_back n) v = inr (
  [],
  take (length (contents b) - n) (contents b),
  cut b n,
  rw (unwrite_ok n v),
  refl,
  rw (length-contents v) (cut-Holds n v),
)
step-Agrees {b} (trim n) v =
    inr ([], take n (contents b), shrink b n, refl, refl, (shrink-Holds n v).0)
step-Agrees {b} get_all v =
    let h = advance-Holds (readable_bytes b) v (omega arith) in
    inr (
      contents b,
      [],
      advance b (readable_bytes b),
      read_string_ok v,
      refl,
      record {
        valid = h.valid;
        held = h.held ∙ drop_all (readable_bytes b) (contents b) (omega (arith, length-contents v));
      },
    )
step-Agrees {b} wipe v = inr ([], [], clear b, refl, refl, (clear-Holds b).0)

-- No sequence of writes, reads, reservations, take-backs, cuts and clears tells a valid buffer
-- from the queue of its bytes: each call returns the same bytes, the first read beyond the end
-- fails its assertion on both sides, and the same bytes are left.
pub run-refines : (cs : List Call) {b : Buffer} → IsValid b → run b cs ≡ queue_run (contents b) cs
unfolding run queue_run Agrees
run-refines [] v = refl
run-refines (c ∷ cs) {b} v = elim (step-Agrees c v) [
  | inl (e, f) ↦ rw (e, f)
  | inr (out, q, b', e, f, h) ↦ rw (e, f, run-refines cs h.valid, h.held)
]
