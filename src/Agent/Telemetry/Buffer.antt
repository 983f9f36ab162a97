-- ===== src/Agent/Telemetry/Buffer.antt =====
-- The telemetry buffer over an upload.
use mathlib.Core.List.{append-nil, append_assoc}
use copysync.Prelude.{
  ℕ, zero, suc, ◌+◌, ◌≤◌, ◌<◌, ◌≡◌, refl, ap, sym, ◌∙◌, inl, inr, Bool, true, false, List, [], ◌∷◌,
  ◌++◌, ltb, length, take, drop, min, length-append, length-drop, length-take, take-append-drop,
  arith, Bool-cases,
}
use copysync.Agent.Telemetry.{
  Line, telemetry_buf_cap, tlog, drain, pop_back, push_front, rebuffer, log_all, cycle,
}

length-pop_back : (x : Line) (b : List Line) → length (pop_back (x ∷ b)) ≡ length b
length-pop_back x [] = refl
length-pop_back x (y ∷ b) = omega (arith, length-pop_back y b)

-- Dropping the last of one line too many is cutting to the length.
pop_back-take : (n : ℕ) (b : List Line) → length b ≡ suc n → pop_back b ≡ take n b
pop_back-take n [] h = absurd (omega (arith, h))
pop_back-take zero (x ∷ []) h = refl
pop_back-take (suc n) (x ∷ []) h = absurd (omega (arith, h))
pop_back-take zero (x ∷ y ∷ b) h = absurd (omega (arith, h))
pop_back-take (suc n) (x ∷ y ∷ b) h = ap (◌∷◌ x) (pop_back-take n (y ∷ b) (omega (arith, h)))

take-all : (n : ℕ) (b : List Line) → length b ≤ n → take n b ≡ b
take-all zero [] h = refl
take-all zero (x ∷ b) h = absurd (omega (arith, h))
take-all (suc n) [] h = refl
take-all (suc n) (x ∷ b) h = ap (◌∷◌ x) (take-all n b (omega (arith, h)))

take-cut : (n : ℕ) (b : List Line) → take n (take (suc n) b) ≡ take n b
take-cut zero b = refl
take-cut (suc n) [] = refl
take-cut (suc n) (x ∷ b) = ap (◌∷◌ x) (take-cut n b)

take-cons_take : (n : ℕ) (x : Line) (b : List Line) → take n (x ∷ take n b) ≡ take n (x ∷ b)
take-cons_take zero x b = refl
take-cons_take (suc n) x b = ap (◌∷◌ x) (take-cut n b)

tlog-bounded :
    (line : Line) (b : List Line)
    → length b ≤ telemetry_buf_cap
    → length (tlog line b) ≤ telemetry_buf_cap
unfolding tlog
tlog-bounded line b h =
    ground
      (arith, length-append (drop 1 b) (line ∷ []), length-append b (line ∷ []), length-drop 1 b)

tlog-room :
    (line : Line) (b : List Line) → length b < telemetry_buf_cap → tlog line b ≡ b ++ line ∷ []
unfolding tlog
tlog-room line b h = ground (arith, h)

push_front-take :
    (line : Line) (b : List Line)
    → length b ≤ telemetry_buf_cap
    → push_front line b ≡ take telemetry_buf_cap (line ∷ b)
unfolding push_front
push_front-take line b h = elim (Bool-cases (ltb telemetry_buf_cap (length (line ∷ b)))) [
  | inl over ↦
      rw (push_front, over) (pop_back-take telemetry_buf_cap (line ∷ b) (ground (arith, over)))
  | inr room ↦
      rw (push_front, room) (sym (take-all telemetry_buf_cap (line ∷ b) (ground (arith, room))))
]

rebuffer-take :
    (batch b : List Line)
    → length b ≤ telemetry_buf_cap
    → rebuffer batch b ≡ take telemetry_buf_cap (batch ++ b)
unfolding rebuffer
rebuffer-take [] b h = sym (take-all telemetry_buf_cap b h)
rebuffer-take (line ∷ batch) b h =
    let rest = rebuffer-take batch b h in
    push_front-take line (rebuffer batch b)
      (omega (arith, ap length rest, length-take telemetry_buf_cap (batch ++ b)))
    ∙ (ap (λ c. take telemetry_buf_cap (line ∷ c)) rest
        ∙ take-cons_take telemetry_buf_cap line (batch ++ b))

log_all-bounded :
    (lines b : List Line)
    → length b ≤ telemetry_buf_cap
    → length (log_all lines b) ≤ telemetry_buf_cap
unfolding log_all
log_all-bounded [] b h = h
log_all-bounded (line ∷ lines) b h = log_all-bounded lines (tlog line b) (tlog-bounded line b h)

log_all-room :
    (lines b : List Line)
    → length b + length lines ≤ telemetry_buf_cap
    → log_all lines b ≡ b ++ lines
unfolding log_all
log_all-room [] b h = sym (append-nil b)
log_all-room (line ∷ lines) b h =
    let room : tlog line b ≡ b ++ line ∷ [] = tlog-room line b (omega (arith, h)) in
    ap (log_all lines) room
    ∙ (log_all-room lines (b ++ line ∷ []) (omega (arith, h, length-append b (line ∷ [])))
        ∙ append_assoc b (line ∷ []) lines)

-- The buffer never exceeds 500 lines in a cycle of the uploader, whether the upload fails or not
-- and whatever is logged meanwhile.
pub cycle-bounded :
    (uploaded : Bool) (meanwhile b : List Line)
    → length b ≤ telemetry_buf_cap
    → length (cycle uploaded meanwhile b) ≤ telemetry_buf_cap
unfolding cycle drain
cycle-bounded uploaded meanwhile b h =
    let n = min (length b) 200 in
    let later = log_all-bounded meanwhile (drop n b) (omega (arith, h, length-drop n b)) in
    elim (Bool-cases uploaded) [
      | inl fine ↦ rw (cycle, fine) later
      | inr failed ↦
          rw (cycle, failed)
            (omega (
              arith,
              ap length (rebuffer-take (take n b) (log_all meanwhile (drop n b)) later),
              length-take telemetry_buf_cap (take n b ++ log_all meanwhile (drop n b)),
            ))
    ]

-- A failed upload loses no line while there is room: the buffer is then what it was, followed by
-- what was logged meanwhile. A successful one drops just the first 200 lines, or all if there are
-- fewer.
pub cycle-kept :
    (meanwhile b : List Line)
    → length b + length meanwhile ≤ telemetry_buf_cap
    → (cycle false meanwhile b ≡ b ++ meanwhile)
      × (cycle true meanwhile b ≡ drop (min (length b) 200) b ++ meanwhile)
unfolding cycle drain
cycle-kept meanwhile b h =
    let n = min (length b) 200 in
    let logged : log_all meanwhile (drop n b) ≡ drop n b ++ meanwhile =
      log_all-room meanwhile (drop n b) (omega (arith, h, length-drop n b)) in
    let all_lines : take n b ++ (drop n b ++ meanwhile) ≡ b ++ meanwhile =
      sym (append_assoc (take n b) (drop n b) meanwhile)
      ∙ ap (λ c. c ++ meanwhile) (take-append-drop n b) in
    (
      rebuffer-take (take n b) (log_all meanwhile (drop n b)) (
            omega (arith, h, length-drop n b, ap length logged, length-append (drop n b) meanwhile))
          ∙ (ap (λ c. take telemetry_buf_cap (take n b ++ c)) logged
              ∙ (ap (take telemetry_buf_cap) all_lines
                  ∙ take-all telemetry_buf_cap (b ++ meanwhile)
                      (omega (arith, h, length-append b meanwhile)))),
      logged,
    )
