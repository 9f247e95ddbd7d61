-- ===== src/Api/Actions/AllStopped.antt =====
-- The action stop-all, with the exits of both children while the handler waits.
use dspark_edge.Base.{
  ℕ, suc, ◌≡◌, ◌⊎◌, inl, inr, refl, ap, subst, ◌∙◌, Option, some, List, [], ◌∷◌, ◌++◌, length,
  length-append, arith, false, get_elem?, get_elem?-append, get_elem?-map,
}
use dspark_edge.Base.Text.{Text, lit}
use dspark_edge.Types.{ProcId, server, daemon, system, same_proc, DashboardConfig}
use dspark_edge.Process.{Env, Manager, Child, proc, status_of, to_child, on_exit}
use dspark_edge.Process.Lifecycle.{core, core-on_exit, core-push_log}
use dspark_edge.Process.Signals.{sent-on_exit}
use dspark_edge.Store.{stop_all}
use dspark_edge.Api.Actions.{Timeline, accept, perform}
use dspark_edge.World.{Wait, World, Event, exits, stop, stop_wait, settle_exited, step, run}
use dspark_edge.World.Stops.{IsSettledAt, exits-IsSettledAt, run-IsSettledAt}
use dspark_edge.World.Escalate.{waiting, stop-stopping, get_elem?-length, sent-stopping}
use dspark_edge.World.Life.{core-send}
use dspark_edge.Api.Actions.Stopped.{ended, core-ended}

-- How a child ends: the surroundings of its exit, its code and its signal.
pub record Exit : Type 0 where
  pub env : Env
  pub code : Option ℕ
  pub signal : Option Text

abbrev pub leaving : ProcId → Child → Exit → Env × Event
leaving id c x = (x.env, exits id c.handle x.code x.signal)

-- Two events, in this order or the other.
abbrev pub InEitherOrder : Env × Event → Env × Event → List (Env × Event) → Type 0
InEitherOrder x y evs = (evs ≡ x ∷ y ∷ []) ⊎ (evs ≡ y ∷ x ∷ [])

pub perform-stop_all :
    {N : Type 0} (text : N → Text) (t : Timeline) (cfg : DashboardConfig N) (w : World)
    → perform text t stop_all cfg w
      ≡ accept (run t.meanwhile (stop t.first daemon (stop t.first server w)))
unfolding perform
perform-stop_all text t cfg w = refl

child-settle_exited : (h : ℕ) (t : Wait) → (settle_exited h t).child.handle ≡ t.child.handle
child-settle_exited h t = ground arith

-- A waiting `stop` is resolved by the exit of its child, before or after another exit.
settled_after :
    (n : ℕ) (x : Exit) (id id' : ProcId) (c' : Child) (x' : Exit) (w : World) (t : Wait)
    (evs : List (Env × Event))
    → get_elem? w.waits n ≡ some t
    → InEitherOrder (leaving id t.child x) (leaving id' c' x') evs
    → IsSettledAt n (run evs w).waits
unfolding run
settled_after n x id id' c' x' w t evs at (inl first) = rw first (
    run-IsSettledAt n (leaving id' c' x' ∷ [])
      (step x.env (exits id t.child.handle x.code x.signal) w)
      (exits-IsSettledAt x.env n id x.code x.signal w t at))
settled_after n x id id' c' x' w t evs at (inr second) =
    let w' = step x'.env (exits id' c'.handle x'.code x'.signal) w in
    let t' = settle_exited c'.handle t in
    let at' : get_elem? w'.waits n ≡ some t' =
      unfold step in get_elem?-map (settle_exited c'.handle) w.waits n t at in
    rw second (
      subst (λ h. IsSettledAt n (step x.env (exits id h x.code x.signal) w').waits)
        (child-settle_exited c'.handle t) (exits-IsSettledAt x.env n id x.code x.signal w' t' at'))

core-on_exit_other :
    (e : Env) (j id : ProcId) (code : Option ℕ) (signal : Option Text) (m : Manager)
    → same_proc j id ≡ false
    → core (on_exit e j code signal m) id ≡ core m id
core-on_exit_other e j id code signal m other = rw (core-on_exit e j id code signal m, other) refl

core_after :
    (id j : ProcId) (c c' : Child) (x x' : Exit) (w : World) (evs : List (Env × Event))
    → same_proc j id ≡ false
    → InEitherOrder (leaving id c x) (leaving j c' x') evs
    → core (run evs w).manager id ≡ ended x.env.now x.code x.signal (core w.manager id)
unfolding run step
core_after id j c c' x x' w evs other (inl first) = rw first (
    core-on_exit_other x'.env j id x'.code x'.signal (on_exit x.env id x.code x.signal w.manager)
      other
    ∙ (core-ended x.env id x.code x.signal w.manager))
core_after id j c c' x x' w evs other (inr second) = rw second (
    core-ended x.env id x.code x.signal (on_exit x'.env j x'.code x'.signal w.manager)
    ∙ ap (ended x.env.now x.code x.signal)
        (core-on_exit_other x'.env j id x'.code x'.signal w.manager other))

sent_after :
    (id j : ProcId) (c c' : Child) (x x' : Exit) (w : World) (evs : List (Env × Event))
    → InEitherOrder (leaving id c x) (leaving j c' x') evs
    → (run evs w).manager.sent ≡ w.manager.sent
unfolding run step
sent_after id j c c' x x' w evs (inl first) = rw first (
    sent-on_exit x'.env j x'.code x'.signal (on_exit x.env id x.code x.signal w.manager)
    ∙ sent-on_exit x.env id x.code x.signal w.manager)
sent_after id j c c' x x' w evs (inr second) = rw second (
    sent-on_exit x.env id x.code x.signal (on_exit x'.env j x'.code x'.signal w.manager)
    ∙ sent-on_exit x'.env j x'.code x'.signal w.manager)

other_order :
    {x y : Env × Event} {evs : List (Env × Event)} → InEitherOrder x y evs → InEitherOrder y x evs
other_order (inl h) = inr h
other_order (inr h) = inl h

module _ (e : Env) (cs cd : Child) (ps pd : ℕ) (xs xd : Exit) (w : World) (evs : List (Env × Event))
    (held : (proc w.manager server).child ≡ some cs)
    (known : (status_of w.manager server).pid ≡ some ps)
    (held' : (proc w.manager daemon).child ≡ some cd)
    (known' : (status_of w.manager daemon).pid ≡ some pd)
    (gone : InEitherOrder (leaving server cs xs) (leaving daemon cd xd) evs) where
  abbrev half : World
  half = stop_wait e server cs ps w

  core-half : (id : ProcId) → core half.manager id ≡ core w.manager id
  core-half id = core-send _ _ id ∙ core-push_log e server id system (lit "stopping…") w.manager

  abbrev pub both : World
  both = stop_wait e daemon cd pd half

  core-both : (id : ProcId) → core both.manager id ≡ core w.manager id
  core-both id =
      core-send _ _ id
      ∙ (core-push_log e daemon id system (lit "stopping…") half.manager ∙ core-half id)

  pub stop-both : stop e daemon (stop e server w) ≡ both
  unfolding core
  stop-both =
      ap (stop e daemon) (stop-stopping e server cs ps w held known)
      ∙ stop-stopping e daemon cd pd half (ap (λ k. k.child) (core-half daemon) ∙ held')
          (ap (λ k. k.status.pid) (core-half daemon) ∙ known')

  pub both_stopped :
      let w' = run evs both in
      (w'.manager.sent
        ≡ (w.manager.sent ++ to_child cs (lit "SIGINT") ∷ []) ++ to_child cd (lit "SIGINT") ∷ [])
      × IsSettledAt (length w.waits) w'.waits
      × IsSettledAt (suc (length w.waits)) w'.waits
      × (core w'.manager server ≡ ended xs.env.now xs.code xs.signal (core w.manager server))
      × (core w'.manager daemon ≡ ended xd.env.now xd.code xd.signal (core w.manager daemon))
  both_stopped =
      let a = waiting e server cs ps w in
      let b = waiting e daemon cd pd half in
      let longer : length half.waits ≡ suc (length w.waits) =
        length-append w.waits (a ∷ []) ∙ omega arith in
      let at =
        get_elem?-append half.waits (b ∷ []) (length w.waits) a (get_elem?-length w.waits a) in
      let at' = get_elem?-length half.waits b in
      (
        sent_after server daemon cs cd xs xd both evs gone
            ∙ (sent-stopping e daemon cd pd half
                ∙ ap (λ s. s ++ to_child cd (lit "SIGINT") ∷ []) (sent-stopping e server cs ps w)),
        settled_after (length w.waits) xs server daemon cd xd both a evs at gone,
        subst (λ n. IsSettledAt n (run evs both).waits) longer
            (settled_after (length half.waits) xd daemon server cs xs both b evs at'
              (other_order gone)),
        core_after server daemon cs cd xs xd both evs (unfold same_proc in refl) gone
            ∙ ap (ended xs.env.now xs.code xs.signal) (core-both server),
        core_after daemon server cd cs xd xs both evs (unfold same_proc in refl) (other_order gone)
            ∙ ap (ended xd.env.now xd.code xd.signal) (core-both daemon),
      )
