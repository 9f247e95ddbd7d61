-- ===== src/Api/Stream/Laws.antt =====
-- What a connection delivers, and what is left of it when it ends.
use dspark_edge.Base.{
  ◌≡◌, refl, ap, ◌∙◌, Bool, true, false, List, [], ◌∷◌, ◌++◌, append-nil, append_assoc, arith,
}
use dspark_edge.Process.{Emission}
use dspark_edge.Api.Stream.{
  Chunk, live, ping, Connection, send, cleanup, StreamEvent, emits, beats, leaves, handle,
  handle_all,
}

handle_closed : (e : StreamEvent) (c : Connection) → c.closed ≡ true → handle e c ≡ c
unfolding handle send cleanup
handle_closed e c h = ground arith

-- A closed connection is never written to again, and keeps its listeners and its heartbeat as they
-- are, whatever events follow.
pub handle_all_closed :
    (es : List StreamEvent) (c : Connection) → c.closed ≡ true → handle_all es c ≡ c
unfolding handle_all
handle_all_closed [] c h = refl
handle_all_closed (e ∷ es) c h = rw (handle_closed e c h) (handle_all_closed es c h)

-- A request that ends while its connection is open is cleaned up for good: after any further events
-- no listener and no timer are left, and nothing more was written.
pub handle_all-leaves :
    (es : List StreamEvent) (c : Connection)
    → c.closed ≡ false
    → let c' = handle_all (leaves ∷ es) c in
      (c'.listening ≡ false) × (c'.beating ≡ false) × (c'.ended ≡ true) × (c'.written ≡ c.written)
unfolding handle_all
handle_all-leaves es c h =
    let done = handle_all_closed es (handle leaves c) (unfold handle cleanup in ground arith) in
    rw done (unfold handle cleanup in ground arith)

-- A write that throws closes the connection without removing its listeners and its timer, and then
-- no later event removes them, the end of the request included.
pub failed_write_leaks :
    (e : Emission) (es : List StreamEvent) (c : Connection)
    → c.closed ≡ false
    → c.listening ≡ true
    → c.beating ≡ true
    → let c' = handle_all (emits false e ∷ es) c in
      (c'.listening ≡ true) × (c'.beating ≡ true) × (c'.ended ≡ c.ended)
unfolding handle_all
failed_write_leaks e es c h l b =
    let done =
      handle_all_closed es (handle (emits false e) c) (unfold handle send in ground arith) in
    rw done (unfold handle send in ground arith)

-- The chunks that events without a failing write or an end deliver.
abbrev pub delivered : List StreamEvent → List Chunk
delivered [] = []
delivered (emits works e ∷ es) = live e ∷ delivered es
delivered (beats works ∷ es) = ping ∷ delivered es
delivered (leaves ∷ es) = []

abbrev pub AllWork : List StreamEvent → Type 0
AllWork [] = Unit
AllWork (emits works e ∷ es) = (works ≡ true) × AllWork es
AllWork (beats works ∷ es) = (works ≡ true) × AllWork es
AllWork (leaves ∷ es) = ⊥

handle_works :
    (works : Bool) (e : Emission) (c : Connection)
    → works ≡ true
    → c.closed ≡ false
    → c.listening ≡ true
    → handle (emits works e) c ≡ record c { written = c.written ++ live e ∷ [] }
unfolding handle send
handle_works works e c w h l = ground arith

handle_beats :
    (works : Bool) (c : Connection)
    → works ≡ true
    → c.closed ≡ false
    → c.beating ≡ true
    → handle (beats works) c ≡ record c { written = c.written ++ ping ∷ [] }
unfolding handle send
handle_beats works c w h b = ground arith

abbrev pub IsOpen : Connection → Type 0
IsOpen c = (c.closed ≡ false) × (c.listening ≡ true) × (c.beating ≡ true)

-- While every write goes through and the request lasts, the events only write what they deliver.
pub handle_all_open :
    (es : List StreamEvent) (c : Connection)
    → AllWork es
    → IsOpen c
    → handle_all es c ≡ record c { written = c.written ++ delivered es }
unfolding handle_all
handle_all_open [] c w o = rw append-nil refl
handle_all_open (emits works e ∷ es) c w (h, l, b) =
    let c' : Connection = record c { written = c.written ++ live e ∷ [] } in
    ap (handle_all es) (handle_works works e c w.0 h l)
    ∙ (handle_all_open es c' w.1 (h, l, b)
        ∙ ap (λ ws. record c { written = ws })
            (append_assoc c.written (live e ∷ []) (delivered es)))
handle_all_open (beats works ∷ es) c w (h, l, b) =
    let c' : Connection = record c { written = c.written ++ ping ∷ [] } in
    ap (handle_all es) (handle_beats works c w.0 h b)
    ∙ (handle_all_open es c' w.1 (h, l, b)
        ∙ ap (λ ws. record c { written = ws }) (append_assoc c.written (ping ∷ []) (delivered es)))
handle_all_open (leaves ∷ es) c w o = absurd w

-- While every write goes through and the request lasts, every emission and every ping is written,
-- in order and once.
pub written-handle_all :
    (es : List StreamEvent) (c : Connection)
    → AllWork es
    → c.closed ≡ false
    → c.listening ≡ true
    → c.beating ≡ true
    → (handle_all es c).written ≡ c.written ++ delivered es
written-handle_all es c w h l b = ap (λ k. k.written) (handle_all_open es c w (h, l, b))
