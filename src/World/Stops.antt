-- ===== src/World/Stops.antt =====
-- The promise of `stop`: it is resolved at the latest by its second timer, stays resolved, and its
-- timers do nothing from then on.
use dspark_edge.Base.{
  ℕ, ◌≡◌, refl, true, false, ◌&&◌, not, Option, none, some, List, arith, ◌==◌, ==_iff, get_elem?,
  set, Bool-cases, inl, inr, get_elem?-append, get_elem?-map, get_elem?-set,
}
use dspark_edge.Base.Text.{Text}
use dspark_edge.Types.{ProcId}
use dspark_edge.Process.{Env, Child}
use dspark_edge.World.{
  Wait, World, stop_with, stop, settle, settle_exited, fire_term, fire_kill, Event, starts, stops,
  output, fails, exits, term_timer, kill_timer, step, run,
}
use dspark_edge.World.Keeps.{run_induction}

-- The nth waiting `stop` is resolved.
abbrev pub IsSettledAt : ℕ → List Wait → Type 0
IsSettledAt n ws = (t : Wait) × (get_elem? ws n ≡ some t) × (t.settled ≡ true)

-- The two writes that a timer makes leave a settled wait settled, wherever they go.
set-IsSettledAt :
    (ws : List Wait) (i n : ℕ) (v : Wait)
    → (i ≡ n → v.settled ≡ true)
    → IsSettledAt n ws
    → IsSettledAt n (set ws i v)
set-IsSettledAt ws i n v h (t, e, s) = elim (Bool-cases (i == n)) [
  | inl same ↦ (v, rw (get_elem?-set ws i n v t e, same), h ((==_iff i n).0 same))
  | inr other ↦ (t, rw (get_elem?-set ws i n v t e, other), s)
]

stop_with-IsSettledAt :
    (e : Env) (id : ProcId) (c : Option Child) (pid : Option ℕ) (n : ℕ) (w : World)
    → IsSettledAt n w.waits
    → IsSettledAt n (stop_with e id c pid w).waits
unfolding stop_with
stop_with-IsSettledAt e id none pid n w h = h
stop_with-IsSettledAt e id (some c) none n w h = h
stop_with-IsSettledAt e id (some c) (some pid) n w (t, at, s) =
    (t, get_elem?-append w.waits _ n t at, s)

-- The timers of a settled wait change nothing.
fire_term_settled :
    (n : ℕ) (o : Option Wait) (w : World) (t : Wait)
    → o ≡ some t
    → t.settled ≡ true
    → fire_term n o w ≡ w
unfolding fire_term
fire_term_settled n o w t e h = ground arith

fire_kill_settled :
    (n : ℕ) (o : Option Wait) (w : World) (t : Wait)
    → o ≡ some t
    → t.settled ≡ true
    → fire_kill n o w ≡ w
unfolding fire_kill
fire_kill_settled n o w t e h = ground arith

fire_term-IsSettledAt :
    (i n : ℕ) (o : Option Wait) (w : World)
    → get_elem? w.waits i ≡ o
    → IsSettledAt n w.waits
    → IsSettledAt n (fire_term i o w).waits
unfolding fire_term
fire_term-IsSettledAt i n none w r h = h
fire_term-IsSettledAt i n (some t) w r h = elim (Bool-cases (t.armed && not t.settled)) [
  | inl b ↦
      rw b (
        set-IsSettledAt w.waits i n (record t { armed = false }) (λ same. ground (arith, same, h))
          h)
  | inr b ↦ rw b h
]

fire_kill-IsSettledAt :
    (i n : ℕ) (o : Option Wait) (w : World)
    → IsSettledAt n w.waits
    → IsSettledAt n (fire_kill i o w).waits
unfolding fire_kill
fire_kill-IsSettledAt i n none w h = h
fire_kill-IsSettledAt i n (some t) w h = elim (Bool-cases t.settled) [
  | inl b ↦ rw b h
  | inr b ↦ rw b (set-IsSettledAt w.waits i n (settle t) (λ _. refl) h)
]

settle_exited-settled :
    (handle : ℕ) (t : Wait) → t.settled ≡ true → (settle_exited handle t).settled ≡ true
settle_exited-settled handle t h = ground arith

step-IsSettledAt :
    (n : ℕ) (e : Env) (ev : Event) (w : World)
    → IsSettledAt n w.waits
    → IsSettledAt n (step e ev w).waits
unfolding step stop
step-IsSettledAt n e (starts id bin args) w h = h
step-IsSettledAt n e (stops id) w h = stop_with-IsSettledAt e id _ _ n w h
step-IsSettledAt n e (output id stream text) w h = h
step-IsSettledAt n e (fails id msg) w h = h
step-IsSettledAt n e (exits id handle code signal) w (t, at, s) = (
  settle_exited handle t,
  get_elem?-map (settle_exited handle) w.waits n t at,
  settle_exited-settled handle t s,
)
step-IsSettledAt n e (term_timer i) w h = fire_term-IsSettledAt i n (get_elem? w.waits i) w refl h
step-IsSettledAt n e (kill_timer i) w h = fire_kill-IsSettledAt i n (get_elem? w.waits i) w h

-- A resolved `stop` stays resolved through any run.
pub run-IsSettledAt :
    (n : ℕ) (evs : List (Env × Event)) (w : World)
    → IsSettledAt n w.waits
    → IsSettledAt n (run evs w).waits
run-IsSettledAt n = run_induction (λ w. IsSettledAt n w.waits) (step-IsSettledAt n)

kill_timer-IsSettledAt :
    (e : Env) (n : ℕ) (w : World) (t : Wait)
    → get_elem? w.waits n ≡ some t
    → IsSettledAt n (step e (kill_timer n) w).waits
unfolding step fire_kill
kill_timer-IsSettledAt e n w t at = elim (Bool-cases t.settled) [
  | inl b ↦ rw (at, fire_kill, b) (t, at, b)
  | inr b ↦
      rw (at, fire_kill, b)
        (settle t, rw (get_elem?-set w.waits n n (settle t) t at, (==_iff n n).1 refl), refl)
]

pub exits-IsSettledAt :
    (e : Env) (n : ℕ) (id : ProcId) (code : Option ℕ) (signal : Option Text) (w : World) (t : Wait)
    → get_elem? w.waits n ≡ some t
    → IsSettledAt n (step e (exits id t.child.handle code signal) w).waits
unfolding step
exits-IsSettledAt e n id code signal w t at = (
  settle_exited t.child.handle t,
  get_elem?-map (settle_exited t.child.handle) w.waits n t at,
  rw ((==_iff t.child.handle t.child.handle).1 refl),
)

-- What resolves a waiting `stop`: its second timer, or the exit of the child that it signalled.
pub data EndsWait (n : ℕ) (t : Wait) : Event → Type 0 where
  by_timer : EndsWait n t (kill_timer n)
  by_exit :
      (id : ProcId) (code : Option ℕ) (signal : Option Text)
      → EndsWait n t (exits id t.child.handle code signal)

-- A waiting `stop` is resolved by its second timer and by the exit of the child that it signalled,
-- it stays resolved whatever runs after that, and then neither of its timers changes anything: no
-- signal is sent for it any more.
pub stop_resolves :
    (n : ℕ) (t : Wait) (ev : Event) (e e' : Env) (w : World) (later : List (Env × Event))
    → get_elem? w.waits n ≡ some t
    → EndsWait n t ev
    → let w' = run later (step e ev w) in
      IsSettledAt n w'.waits × (step e' (term_timer n) w' ≡ w') × (step e' (kill_timer n) w' ≡ w')
stop_resolves n t ev e e' w later at r =
    let (t', at', s) = run-IsSettledAt n later (step e ev w) (now ev r) in
    (
      (t', at', s),
      unfold step in fire_term_settled n _ _ t' at' s,
      unfold step in fire_kill_settled n _ _ t' at' s,
    )
  where
    now : (ev : Event) → EndsWait n t ev → IsSettledAt n (step e ev w).waits
    now _ by_timer = kill_timer-IsSettledAt e n w t at
    now _ (by_exit id code signal) = exits-IsSettledAt e n id code signal w t at
