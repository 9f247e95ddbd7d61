-- ===== src/Process/Signals.antt =====
-- The signals that the manager has sent: logging, a status, an exit, an error and a start add none.
use dspark_edge.Base.{ℕ, ◌≡◌, refl, ◌∙◌, Option, none, List, [], ◌∷◌}
use dspark_edge.Base.Text.{Text}
use dspark_edge.Types.{ProcId, server, daemon, ProcStatus, Stream, system}
use dspark_edge.Process.{
  Env, Manager, Child, Spawned, child, refused, push_line, push_lines, push_log, update_status,
  set_child, clear_logs, exit_text, on_exit, on_error, launch, boot, missing, start, start_cases,
}

sent-push_lines :
    (e : Env) (id : ProcId) (stream : Stream) (m : Manager) (raws : List Text)
    → (push_lines e id stream m raws).sent ≡ m.sent
unfolding push_lines push_line
sent-push_lines e id stream m [] = refl
sent-push_lines e id stream m ([] ∷ rest) = sent-push_lines e id stream m rest
sent-push_lines e server stream m ((c ∷ raw) ∷ rest) =
    sent-push_lines e server stream (push_line e server stream m (c ∷ raw)) rest
sent-push_lines e daemon stream m ((c ∷ raw) ∷ rest) =
    sent-push_lines e daemon stream (push_line e daemon stream m (c ∷ raw)) rest

pub sent-push_log :
    (e : Env) (id : ProcId) (stream : Stream) (text : Text) (m : Manager)
    → (push_log e id stream text m).sent ≡ m.sent
unfolding push_log
sent-push_log e id stream text m = sent-push_lines e id stream m _

sent-update_status :
    (id : ProcId) (f : ProcStatus → ProcStatus) (m : Manager) → (update_status id f m).sent ≡ m.sent
unfolding update_status
sent-update_status server f m = refl
sent-update_status daemon f m = refl

sent-set_child : (id : ProcId) (c : Option Child) (m : Manager) → (set_child id c m).sent ≡ m.sent
unfolding set_child
sent-set_child server c m = refl
sent-set_child daemon c m = refl

pub sent-on_exit :
    (e : Env) (id : ProcId) (code : Option ℕ) (signal : Option Text) (m : Manager)
    → (on_exit e id code signal m).sent ≡ m.sent
unfolding on_exit
sent-on_exit e id code signal m =
    sent-update_status id _ _
    ∙ (sent-push_log e id system (exit_text code signal) (set_child id none m)
        ∙ sent-set_child id none m)

sent-clear_logs : (id : ProcId) (m : Manager) → (clear_logs id m).sent ≡ m.sent
unfolding clear_logs
sent-clear_logs server m = refl
sent-clear_logs daemon m = refl

ruleset sents = (sent-push_log, sent-update_status, sent-set_child, sent-clear_logs)

pub sent-on_error :
    (e : Env) (id : ProcId) (msg : Text) (m : Manager) → (on_error e id msg m).sent ≡ m.sent
unfolding on_error
sent-on_error e id msg m = simp sents

sent-boot :
    (e : Env) (id : ProcId) (command : Text) (m : Manager) → (boot e id command m).sent ≡ m.sent
unfolding boot
sent-boot e id command m = simp sents

sent-launch :
    (e : Env) (id : ProcId) (r : Spawned) (m : Manager) → (launch e id r m).0.sent ≡ m.sent
unfolding launch
sent-launch e id (child c) m = simp sents
sent-launch e id (refused msg) m = simp sents

sent-missing :
    (e : Env) (id : ProcId) (bin : Text) (m : Manager) → (missing e id bin m).0.sent ≡ m.sent
unfolding missing
sent-missing e id bin m = simp sents

pub sent-start :
    (e : Env) (id : ProcId) (bin : Text) (args : List Text) (m : Manager)
    → (start e id bin args m).0.sent ≡ m.sent
sent-start e id bin args m =
    start_cases e id bin args m (λ r. r.0.sent ≡ m.sent) (λ _. refl)
      (λ _ _. rw (sent-launch, sent-boot) refl) (λ _ _. sent-missing e id bin m)
