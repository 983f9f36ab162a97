-- ===== src/Gui/Launch/Threads.antt =====
-- The event threads of the GUI: how many there are, and when one ends.
use copysync.Prelude.{
  suc, ◌+◌, ◌≡◌, ◌≤◌, refl, Bool, true, false, not, ◌&&◌, ◌||◌, List, [], ◌∷◌, ◌++◌, map, Text,
  length, ◌∙◌, inl, inr, Bool-cases, arith, if◌then◌else◌,
}
use mathlib.Core.List.{append-nil, append_assoc}
use copysync.Gui.Launch.{
  Round, Thread, note, event_loop, Renderer, glow, wgpu, Attempt, build_and_run, open_window,
}

-- The rounds before the window was found gone.
abbrev pub alive_rounds : List Round → List Round
alive_rounds [] = []
alive_rounds (r ∷ rs) = if r.window then r ∷ alive_rounds rs else []

abbrev pub all_alive : List Round → Bool
all_alive [] = true
all_alive (r ∷ rs) = r.window && all_alive rs

abbrev notes_of : List Round → List Text
notes_of rs = map (λ r. note r.ended_by) rs

-- The event thread returns just when it finds the window gone. Up to then it has handed over one
-- note and tried to bring the agent back once for each stream that ended, and afterwards neither.
pub event_loop-alive_rounds :
    (rs : List Round) (t : Thread)
    → t.returned ≡ false
    → let u = event_loop rs t in
      (u.returned ≡ not (all_alive rs))
      × (u.notes ≡ t.notes ++ notes_of (alive_rounds rs))
      × (u.launches ≡ t.launches + length (alive_rounds rs))
unfolding event_loop
event_loop-alive_rounds [] t up = (up, rw append-nil, omega arith)
event_loop-alive_rounds (r ∷ rs) t up =
    let next : Thread = record t {
      notes = t.notes ++ note r.ended_by ∷ [];
      launches = suc t.launches;
    } in
    let (ended, told, launches) = event_loop-alive_rounds rs next up in
    elim (Bool-cases r.window) [
      | inr gone ↦ rw gone (refl, rw append-nil, omega arith)
      | inl here ↦ rw here (
        ended,
        told ∙ append_assoc t.notes (note r.ended_by ∷ []) (notes_of (alive_rounds rs)),
        omega (arith, launches),
      )
    ]

-- A start of the GUI leaves at most one event thread, whatever the two renderers do. The second one
-- is tried just when the first failed before it started its thread, and the start succeeds just
-- when the last one that was tried does.
pub open_window-one_thread :
    (run : Renderer → Attempt)
    → let g = open_window run in
      (g.event_threads ≤ 1)
      × (g.tried ≡ (
          if (run glow).succeeded || (run glow).creator_ran then glow ∷ [] else glow ∷ wgpu ∷ []))
      × (g.succeeded
          ≡ ((run glow).succeeded || (not (run glow).creator_ran && (run wgpu).succeeded)))
unfolding open_window build_and_run
open_window-one_thread run = ground arith
