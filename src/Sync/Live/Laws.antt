-- ===== src/Sync/Live/Laws.antt =====
-- What goes on after the component is removed.
use dspark_edge.Base.{
  ◌≡◌, refl, ap, ◌∙◌, Bool, false, List, [], ◌∷◌, ◌++◌, append-nil, append_assoc, if◌then◌else◌,
}
use dspark_edge.Numbers.{Numbers}
use dspark_edge.Store.{AppState}
use dspark_edge.Store.Actions.{Action, act, act_all, inits, models, polled_status, polled_spec}
use dspark_edge.Sync.Live.{
  Request, get_status, get_models, Live, LiveEvent, backlog, emitted, spec_tick, status_tick,
  spec_reply, status_reply, config_reply, models_reply, unmounted, unmount, live, live_all,
}

module _ {N : Type 0} where
  -- The replies among the events, as actions of the store.
  abbrev pub replies : List (LiveEvent N) → List (Action N)
  replies [] = []
  replies (spec_reply t now r ∷ es) = polled_spec t now r ∷ replies es
  replies (status_reply st ∷ es) = polled_status st ∷ replies es
  replies (config_reply config presets paths ∷ es) = inits config presets paths ∷ replies es
  replies (models_reply dir found ∷ es) = models dir found ∷ replies es
  replies (_ ∷ es) = replies es

  -- The requests with which `init` goes on after its replies.
  abbrev pub follow_ups : List (LiveEvent N) → List Request
  follow_ups [] = []
  follow_ups (config_reply config presets paths ∷ es) = get_models paths.models_dir ∷ follow_ups es
  follow_ups (models_reply dir found ∷ es) = get_status ∷ follow_ups es
  follow_ups (_ ∷ es) = follow_ups es

  record IsDown (l : Live N) : Type 0 where
    stream : l.stream_open ≡ false
    spec : l.spec_timer ≡ false
    status : l.status_timer ≡ false

module _ {N : Type 0} (num : Numbers N) where
  if-false : {b : Bool} (x y : Live N) → b ≡ false → (if b then x else y) ≡ y
  if-false x y h = rw h refl

  -- An event that leaves the component as it is.
  unheard :
      {l l' : Live N}
      → l' ≡ l
      → (es : List (LiveEvent N)) {s : AppState N} {rs : List Request}
      → ((live_all num es l).state ≡ s) × ((live_all num es l).sent ≡ rs)
      → ((live_all num es l').state ≡ s) × ((live_all num es l').sent ≡ rs)
  unheard same es (state, sent) = (
    ap (λ x. (live_all num es x).state) same ∙ state,
    ap (λ x. (live_all num es x).sent) same ∙ sent,
  )

  down_stays :
      (es : List (LiveEvent N)) (l : Live N)
      → IsDown l
      → let l' = live_all num es l in
        (l'.state ≡ act_all num (replies es) l.state) × (l'.sent ≡ l.sent ++ follow_ups es)
  unfolding live_all live act_all act unmount
  down_stays [] l d = (refl, rw append-nil)
  down_stays (backlog lines st ∷ es) l d = unheard (if-false _ _ d.stream) es (down_stays es l d)
  down_stays (emitted e ∷ es) l d = unheard (if-false _ _ d.stream) es (down_stays es l d)
  down_stays (spec_tick ∷ es) l d = unheard (if-false _ _ d.spec) es (down_stays es l d)
  down_stays (status_tick ∷ es) l d = unheard (if-false _ _ d.status) es (down_stays es l d)
  down_stays (spec_reply t now r ∷ es) l d =
      down_stays es (live num (spec_reply t now r) l)
        (record { stream = d.stream; spec = d.spec; status = d.status })
  down_stays (status_reply st ∷ es) l d =
      down_stays es (live num (status_reply st) l)
        (record { stream = d.stream; spec = d.spec; status = d.status })
  down_stays (config_reply config presets paths ∷ es) l d =
      let (state, sent) =
        down_stays es (live num (config_reply config presets paths) l)
          (record { stream = d.stream; spec = d.spec; status = d.status }) in
      (state, sent ∙ append_assoc l.sent (get_models paths.models_dir ∷ []) (follow_ups es))
  down_stays (models_reply dir found ∷ es) l d =
      let (state, sent) =
        down_stays es (live num (models_reply dir found) l)
          (record { stream = d.stream; spec = d.spec; status = d.status }) in
      (state, sent ∙ append_assoc l.sent (get_status ∷ []) (follow_ups es))
  down_stays (unmounted ∷ es) l d =
      down_stays es (unmount num l) (record { stream = refl; spec = refl; status = refl })

  -- Once the component is removed, whatever events come, the state is what the replies that still
  -- come make of it as actions of the store, and no request is sent but those with which `init` goes
  -- on after its own replies.
  pub live_all-unmount :
      (es : List (LiveEvent N)) (l : Live N)
      → let l' = live_all num es (unmount num l) in
        (l'.state ≡ act_all num (replies es) l.state) × (l'.sent ≡ l.sent ++ follow_ups es)
  unfolding unmount
  live_all-unmount es l =
      down_stays es (unmount num l) (record { stream = refl; spec = refl; status = refl })
