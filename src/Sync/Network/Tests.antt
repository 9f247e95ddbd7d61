-- ===== src/Sync/Network/Tests.antt =====
-- The browser and the manager at concrete interleavings, and the theorems on them.
use dspark_edge.Base.{ℕ, ◌≡◌, ◌≢◌, refl, ap, true, some, List, [], ◌∷◌, length, get_elem?}
use dspark_edge.Base.Text.{lit}
use dspark_edge.Types.{server, error, stopped}
use dspark_edge.Process.{
  all_status, on_error, push_log, push_lines, push_line, push_ring, update_status, new, blank_proc,
  blank_status,
}
use dspark_edge.Process.Lines.{split_lines}
use dspark_edge.Process.Emitted.{HasIds}
use dspark_edge.Store
use dspark_edge.Store.{AppState}
use dspark_edge.World.{fails, initial, run, step}
use dspark_edge.Api.Stream.{open_stream, handle_all, handle, send}
use dspark_edge.Sync.Network.{
  SessionEvent, happens, reconnects, takes, asks, answers, session, session_all, open_page, notify,
}
use dspark_edge.Sync.Network.Written.{now}
use dspark_edge.Sync.Network.Repair.{page, page_shows_now, repaired_shows_now}
use dspark_edge.Sync.Network.Stale.{stale_reply_shown}
use dspark_edge.Sync.Network.Shapes.{page-HasIds}
use dspark_edge.Samples.{sample_env}

abbrev browser : AppState ℕ
browser = Store.initial

browser_named : HasIds browser.status
unfolding Store.initial blank_status
browser_named = (refl, refl)

-- The server answers a poll, the server's child fails, and the browser takes all three chunks.
abbrev failing : List SessionEvent
failing = asks ∷ happens true sample_env (fails server (104 ∷ [])) ∷ takes ∷ takes ∷ takes ∷ []

failing_taken :
    (page [] failing browser).taken ≡ length (page [] failing browser).connection.written
unfolding session_all session open_page notify run initial step open_stream handle_all handle send
    on_error push_log push_lines push_line push_ring update_status new blank_proc blank_status
    split_lines lit
failing_taken = refl

failing_asked : get_elem? (page [] failing browser).replies 0 ≡ some (all_status new)
unfolding session_all session open_page notify run initial step open_stream handle_all handle send
    on_error push_log push_lines push_line push_ring update_status new blank_proc blank_status
    split_lines lit
failing_asked = refl

failing_now : (now (page [] failing browser)).server.state ≡ error
unfolding session_all session open_page notify run initial step open_stream handle_all handle send
    on_error push_log push_lines push_line push_ring update_status new blank_proc blank_status
    split_lines lit
failing_now = refl

new_stopped : (all_status new).server.state ≡ stopped
unfolding new blank_proc blank_status
new_stopped = refl

failing_differs : all_status new ≢ now (page [] failing browser)
failing_differs same =
    let e = ap (λ st. st.server.state) same in absurd (cc (e, failing_now, new_stopped))

stale_reply_shown_example :
    let s = page [] failing browser in
    let s' = session_all (takes ∷ []) (session (answers 0) s) in
    (s'.state.status ≡ all_status new) × (s'.state.status ≢ now s')
stale_reply_shown_example =
    stale_reply_shown (page [] failing browser) 0 (all_status new) (takes ∷ []) failing_taken
      failing_asked failing_differs (tt, tt)

page_shows_now_example : (page [] failing browser).state.status ≡ now (page [] failing browser)
page_shows_now_example =
    page_shows_now [] failing browser (tt, (refl, (tt, (tt, (tt, tt))))) failing_taken

-- The old reply is shown, a new connection is made and its only chunk is taken.
abbrev late : List SessionEvent
late =
    asks
    ∷ happens true sample_env (fails server (104 ∷ []))
    ∷ takes
    ∷ takes
    ∷ takes
    ∷ answers 0
    ∷ []

late_taken :
    (session_all (takes ∷ []) (session (reconnects true) (page [] late browser))).taken
    ≡ length
        (session_all
          (takes ∷ [])
          (session (reconnects true) (page [] late browser))).connection.written
unfolding session_all session open_page notify run initial step open_stream handle_all handle send
    on_error push_log push_lines push_line push_ring update_status new blank_proc blank_status
    split_lines lit
late_taken = refl

repaired_shows_now_example :
    (session_all (takes ∷ []) (session (reconnects true) (page [] late browser))).state.status
    ≡ now (session_all (takes ∷ []) (session (reconnects true) (page [] late browser)))
repaired_shows_now_example =
    repaired_shows_now [] late (reconnects true) (takes ∷ []) browser refl (tt, tt) late_taken

page-HasIds_example : HasIds (page [] late browser).state.status
page-HasIds_example = page-HasIds [] late browser browser_named
