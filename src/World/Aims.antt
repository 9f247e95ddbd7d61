-- ===== src/World/Aims.antt =====
-- The child that a waiting `stop` was called for, through each step (tools/llama-dspark-test-ui/lib/process-manager.ts).
use dspark_edge.Base.{
  ℕ, ◌≡◌, ◌≢◌, refl, sym, ap, ◌∙◌, true, false, ◌&&◌, not, Option, none, some, List, ◌==◌, ==_iff,
  Bool-cases, inl, inr, get_elem?, set, All, All-append, All-map, All-set, All-get_elem?, map-All,
}
use dspark_edge.Base.Text.{Text}
use dspark_edge.Types.{ProcId}
use dspark_edge.Process.{Env, Child, has_child}
use dspark_edge.Process.Lifecycle.{Core, core, core-push_log}
use dspark_edge.World.{
  Wait, World, stop_with, stop, settle, settle_exited, fire_term, fire_kill, Event, starts, stops,
  output, fails, exits, term_timer, kill_timer, step,
}
use dspark_edge.World.Life.{IsUp, Spares, core-send, step-undisturbed}
use dspark_edge.World.Shapes.{Shape, Fair}

-- The process still has the child and the pid that the waiting `stop` read.
abbrev pub Holds : Core → Wait → Type 0
Holds k t = (k.child ≡ some t.child) × (k.status.pid ≡ some t.pid)

abbrev pub Aimed : ProcId → Core → Wait → Type 0
Aimed id k t = t.proc ≡ id → t.settled ≡ false → Holds k t

Shape-IsUp : (k : Core) (t : Wait) → Shape k → Holds k t → IsUp k
Shape-IsUp k t v (held, known) =
    let here : has_child k.child ≡ true = rw held refl in
    let there : k.status.pid ≢ none = cc in (v here there, here, there)

module _ (id : ProcId) where
  -- The waits of a world, aimed at the process as it is in another.
  abbrev pub Waits : World → World → Type 0
  Waits w w' = All (Aimed id (core w'.manager id)) w.waits

  spared-Aimed :
      (e : Env) (ev : Event) (w : World)
      → Spares id ev
      → Shape (core w.manager id)
      → Waits w w
      → Waits w (step e ev w)
  spared-Aimed e ev w h v =
      All-map (Aimed id (core w.manager id)) (Aimed id (core (step e ev w).manager id))
        (λ t aimed p s.
          rw (step-undisturbed id e ev w h (Shape-IsUp (core w.manager id) t v (aimed p s)))
            (aimed p s))
        w.waits

  set-Aimed :
      (k : Core) (ws : List Wait) (n : ℕ) (t v : Wait)
      → get_elem? ws n ≡ some t
      → (v.proc ≡ t.proc) × (v.child ≡ t.child) × (v.pid ≡ t.pid)
      → (v.settled ≡ false → t.settled ≡ false)
      → All (Aimed id k) ws
      → All (Aimed id k) (set ws n v)
  set-Aimed k ws n t v at (p, c, i) live h =
      let aimed = All-get_elem? (Aimed id k) ws n t at h in
      All-set (Aimed id k) ws n v
        (λ q s. let (held, known) = aimed (sym p ∙ q) (live s) in (rw c held, rw i known)) h

  fire_term-Aimed :
      (k : Core) (n : ℕ) (o : Option Wait) (w : World)
      → get_elem? w.waits n ≡ o
      → All (Aimed id k) w.waits
      → All (Aimed id k) (fire_term n o w).waits
  unfolding fire_term
  fire_term-Aimed k n none w at h = h
  fire_term-Aimed k n (some t) w at h = elim (Bool-cases (t.armed && not t.settled)) [
    | inl b ↦
        rw b (set-Aimed k w.waits n t (record t { armed = false }) at (refl, refl, refl) (λ s. s) h)
    | inr b ↦ rw b h
  ]

  fire_kill-Aimed :
      (k : Core) (n : ℕ) (o : Option Wait) (w : World)
      → get_elem? w.waits n ≡ o
      → All (Aimed id k) w.waits
      → All (Aimed id k) (fire_kill n o w).waits
  unfolding fire_kill
  fire_kill-Aimed k n none w at h = h
  fire_kill-Aimed k n (some t) w at h = elim (Bool-cases t.settled) [
    | inl b ↦ rw b h
    | inr b ↦ rw b (set-Aimed k w.waits n t (settle t) at (refl, refl, refl) (λ s. absurd (cc)) h)
  ]

  stop_with-Aimed :
      (e : Env) (j : ProcId) (c : Option Child) (pid : Option ℕ) (w : World)
      → (core w.manager j).child ≡ c
      → (core w.manager j).status.pid ≡ pid
      → let w' = stop_with e j c pid w in Waits w w' → Waits w' w'
  unfolding stop_with
  stop_with-Aimed e j none pid w h k v = v
  stop_with-Aimed e j (some c) none w h k v = v
  stop_with-Aimed e j (some c) (some pid) w h k v =
      All-append _ w.waits _ v ((λ p s. rw (core-send, core-push_log, ← p) (h, k)), tt)

  stop-Aimed :
      (e : Env) (j : ProcId) (w : World) → Waits w (stop e j w) → Waits (stop e j w) (stop e j w)
  unfolding stop core
  stop-Aimed e j w v = stop_with-Aimed e j _ _ w refl refl v

  -- The exit of the child that is held settles every wait that is aimed at the process.
  exited-Aimed :
      (k k' : Core) (handle : ℕ) (c : Child) (t : Wait)
      → k.child ≡ some c
      → c.handle ≡ handle
      → Aimed id k t
      → Aimed id k' (settle_exited handle t)
  exited-Aimed k k' handle c t held same aimed = elim (Bool-cases (t.child.handle == handle)) [
    | inl b ↦ rw b (λ p s. absurd (cc))
    | inr b ↦ rw b (λ p s.
        let mine : some t.child ≡ some c = sym (aimed p s).0 ∙ held in
        let one : t.child ≡ c = cc in
        let hit : t.child.handle == handle ≡ true =
          (==_iff t.child.handle handle).1 (ap (λ x. x.handle) one ∙ same) in
        absurd (cc))
  ]

  settled-Aimed :
      (k : Core) (handle : ℕ) (t : Wait) → Aimed id k t → Aimed id k (settle_exited handle t)
  settled-Aimed k handle t aimed = elim (Bool-cases (t.child.handle == handle)) [
    | inl b ↦ rw b (λ p s. absurd (cc))
    | inr b ↦ rw b aimed
  ]

  exits-Aimed :
      (e : Env) (j : ProcId) (handle : ℕ) (code : Option ℕ) (signal : Option Text) (w : World)
      → Fair id (exits j handle code signal) (core w.manager id)
      → Shape (core w.manager id)
      → Waits w w
      → let w' = step e (exits j handle code signal) w in Waits w' w'
  unfolding step
  exits-Aimed e j handle code signal w (inl other) v h =
      let k' = core (step e (exits j handle code signal) w).manager id in
      map-All (Aimed id k') (Aimed id k') (settle_exited handle) (settled-Aimed k' handle) w.waits
        (spared-Aimed e (exits j handle code signal) w other v h)
  exits-Aimed e j handle code signal w (inr (c, held, same)) v h =
      let k = core w.manager id in
      let k' = core (step e (exits j handle code signal) w).manager id in
      map-All (Aimed id k) (Aimed id k') (settle_exited handle)
        (λ t. exited-Aimed k k' handle c t held same) w.waits h

  pub step-Aimed :
      (e : Env) (ev : Event) (w : World)
      → Fair id ev (core w.manager id)
      → Shape (core w.manager id)
      → Waits w w
      → Waits (step e ev w) (step e ev w)
  unfolding step
  step-Aimed e (starts j bin args) w f v h = spared-Aimed e (starts j bin args) w tt v h
  step-Aimed e (stops j) w f v h = stop-Aimed e j w (spared-Aimed e (stops j) w tt v h)
  step-Aimed e (output j stream text) w f v h = spared-Aimed e (output j stream text) w tt v h
  step-Aimed e (fails j msg) w f v h = spared-Aimed e (fails j msg) w f v h
  step-Aimed e (exits j handle code signal) w f v h = exits-Aimed e j handle code signal w f v h
  step-Aimed e (term_timer n) w f v h =
      fire_term-Aimed (core (step e (term_timer n) w).manager id) n (get_elem? w.waits n) w refl
        (spared-Aimed e (term_timer n) w tt v h)
  step-Aimed e (kill_timer n) w f v h =
      fire_kill-Aimed (core (step e (kill_timer n) w).manager id) n (get_elem? w.waits n) w refl
        (spared-Aimed e (kill_timer n) w tt v h)
