-- ===== src/Process/Lifecycle.antt =====
-- The child and the status of each process under every call and event.
use dspark_edge.Base.{
  ℕ, ◌≡◌, refl, ap, sym, ◌∙◌, true, false, Option, none, some, List, [], ◌∷◌, arith, if◌then◌else◌,
  Bool-cases, inl, inr,
}
use dspark_edge.Base.Text.{Text}
use dspark_edge.Types.{ProcId, server, daemon, running, ProcStatus, Stream, same_proc}
use dspark_edge.Process.{
  Env, Manager, Child, Spawned, child, refused, returned, thrown, proc, push_line, push_lines,
  push_log, update_status, set_child, clear_logs, busy, booting, failed, command_line, not_found,
  already_running, launch, boot, missing, start, start_cases, start_busy, start_there, start_absent,
  on_data, on_error, exit_state, on_exit,
}

-- A managed process without its logs.
pub record Core : Type 0 where
  pub child : Option Child
  pub status : ProcStatus

unfoldable pub core : Manager → ProcId → Core
core m id = record { child = (proc m id).child; status = (proc m id).status }

abbrev pub with_status : (ProcStatus → ProcStatus) → Core → Core
with_status f c = record c { status = f c.status }

core-push_lines :
    (e : Env) (id j : ProcId) (stream : Stream) (m : Manager) (raws : List Text)
    → core (push_lines e id stream m raws) j ≡ core m j
unfolding core push_lines push_line
core-push_lines e id j stream m [] = refl
core-push_lines e id j stream m ([] ∷ rest) = core-push_lines e id j stream m rest
core-push_lines e server server stream m ((c ∷ raw) ∷ rest) =
    core-push_lines e server server stream (push_line e server stream m (c ∷ raw)) rest
core-push_lines e server daemon stream m ((c ∷ raw) ∷ rest) =
    core-push_lines e server daemon stream (push_line e server stream m (c ∷ raw)) rest
core-push_lines e daemon server stream m ((c ∷ raw) ∷ rest) =
    core-push_lines e daemon server stream (push_line e daemon stream m (c ∷ raw)) rest
core-push_lines e daemon daemon stream m ((c ∷ raw) ∷ rest) =
    core-push_lines e daemon daemon stream (push_line e daemon stream m (c ∷ raw)) rest

pub core-push_log :
    (e : Env) (id j : ProcId) (stream : Stream) (text : Text) (m : Manager)
    → core (push_log e id stream text m) j ≡ core m j
unfolding push_log
core-push_log e id j stream text m = core-push_lines e id j stream m _

pub core-update_status :
    (id j : ProcId) (f : ProcStatus → ProcStatus) (m : Manager)
    → core (update_status id f m) j
      ≡ (if same_proc id j then with_status f (core m j) else core m j)
unfolding core update_status same_proc
core-update_status server server f m = refl
core-update_status server daemon f m = refl
core-update_status daemon server f m = refl
core-update_status daemon daemon f m = refl

pub core-set_child :
    (id j : ProcId) (c : Option Child) (m : Manager)
    → core (set_child id c m) j
      ≡ (if same_proc id j then record (core m j) { child = c } else core m j)
unfolding core set_child same_proc
core-set_child server server c m = refl
core-set_child server daemon c m = refl
core-set_child daemon server c m = refl
core-set_child daemon daemon c m = refl

pub core-clear_logs : (id j : ProcId) (m : Manager) → core (clear_logs id m) j ≡ core m j
unfolding core clear_logs
core-clear_logs server server m = refl
core-clear_logs server daemon m = refl
core-clear_logs daemon server m = refl
core-clear_logs daemon daemon m = refl

ruleset cores = (core-push_log, core-update_status, core-set_child, core-clear_logs)

-- The exit of a child leaves the process without a child and a pid, records the code, the signal
-- and the time, and touches nothing else of either process.
pub core-on_exit :
    (e : Env) (id j : ProcId) (code : Option ℕ) (signal : Option Text) (m : Manager)
    → core (on_exit e id code signal m) j ≡ (
        if same_proc id j
        then record {
          child = none;
          status = record (core m j).status {
            state = exit_state code signal;
            pid = none;
            exited_at = some e.now;
            exit_code = code;
            signal = signal;
          };
        }
        else core m j)
unfolding on_exit
core-on_exit e id j code signal m = simp cores (ground arith)

pub core-on_error :
    (e : Env) (id j : ProcId) (msg : Text) (m : Manager)
    → core (on_error e id msg m) j
      ≡ (if same_proc id j then with_status (failed msg) (core m j) else core m j)
unfolding on_error
core-on_error e id j msg m = simp cores

pub core-on_data :
    (e : Env) (id j : ProcId) (stream : Stream) (text : Text) (m : Manager)
    → core (on_data e id stream text m) j ≡ core m j
unfolding on_data
core-on_data e id j stream text m = core-push_log e id j stream text m

pub core-boot :
    (e : Env) (id j : ProcId) (command : Text) (m : Manager)
    → core (boot e id command m) j
      ≡ (if same_proc id j then with_status (booting e.now command) (core m j) else core m j)
unfolding boot
core-boot e id j command m = simp cores

pub core-missing :
    (e : Env) (id j : ProcId) (bin : Text) (m : Manager)
    → core (missing e id bin m).0 j
      ≡ (if same_proc id j then with_status (failed (not_found bin)) (core m j) else core m j)
unfolding missing
core-missing e id j bin m = simp cores

-- What `spawn` and the lines after it make of a process.
abbrev pub launched : Spawned → Core → Core
launched (child c) k = record {
  child = some c;
  status = record k.status { state = running; pid = c.pid };
}
launched (refused msg) k = with_status (failed msg) k

pub core-launch :
    (e : Env) (id j : ProcId) (r : Spawned) (m : Manager)
    → core (launch e id r m).0 j ≡ (if same_proc id j then launched r (core m j) else core m j)
unfolding launch
core-launch e id j (refused msg) m = simp cores
core-launch e id j (child c) m = simp cores (ground arith)

-- The process after a start that went well: running, with the child and its pid, the command and
-- the time, and the marks of the last exit wiped.
abbrev pub started : Env → Text → List Text → Child → Core → Core
started e bin args c k = record {
  child = some c;
  status = record (booting e.now (command_line bin args) k.status) { state = running; pid = c.pid };
}

-- Why `start` threw: the process was running, its binary is missing, or `spawn` threw.
pub data Refusal (e : Env) (id : ProcId) (bin : Text) (args : List Text) (m : Manager) (msg : Text)
    : Type 0 where
  running_already :
      busy (proc m id) ≡ true
      → msg ≡ already_running id (core m id).status.pid
      → (start e id bin args m).0 ≡ m
      → Refusal e id bin args m msg
  no_binary :
      busy (proc m id) ≡ false
      → e.exists bin ≡ false
      → msg ≡ not_found bin
      → core (start e id bin args m).0 id ≡ with_status (failed msg) (core m id)
      → Refusal e id bin args m msg
  no_spawn :
      busy (proc m id) ≡ false
      → e.exists bin ≡ true
      → e.spawn bin args ≡ refused msg
      → core (start e id bin args m).0 id
        ≡ with_status (λ s. failed msg (booting e.now (command_line bin args) s)) (core m id)
      → Refusal e id bin args m msg

launch-returned :
    (e : Env) (id : ProcId) (r : Spawned) (m : Manager) (s : ProcStatus)
    → (launch e id r m).1 ≡ returned s
    → (c : Child) × (r ≡ child c) × (s ≡ (core (launch e id r m).0 id).status)
unfolding launch core
launch-returned e id (child c) m s h = (c, refl, cc)
launch-returned e id (refused msg) m s h = cc

launch-thrown {ℓ} :
    {P : Type ℓ} (e : Env) (id : ProcId) (r : Spawned) (m : Manager) (msg : Text)
    → (launch e id r m).1 ≡ thrown msg
    → (r ≡ refused msg → P)
    → P
unfolding launch
launch-thrown e id (child c) m msg h k = cc
launch-thrown e id (refused why) m msg h k = k (cc)

pub same_proc_refl : (id : ProcId) → same_proc id id ≡ true
unfolding same_proc
same_proc_refl server = refl
same_proc_refl daemon = refl

-- A call of `start` that does not throw had neither a running process nor a missing binary before
-- it. The process is then running with the spawned child and its pid, the command and the time are
-- noted and the marks of the last exit wiped, that status is returned, and the other process keeps
-- its child and its status.
pub start_ok :
    (e : Env) (id j : ProcId) (bin : Text) (args : List Text) (m : Manager) (s : ProcStatus)
    → (start e id bin args m).1 ≡ returned s
    → (c : Child) × (e.spawn bin args ≡ child c)
      × (busy (proc m id) ≡ false)
      × (e.exists bin ≡ true)
      × (s ≡ (core (start e id bin args m).0 id).status)
      × (core (start e id bin args m).0 j
          ≡ (if same_proc id j then started e bin args c (core m j) else core m j))
start_ok e id j bin args m s =
    start_cases e id bin args m
      (λ r.
        r.1 ≡ returned s
        → (c : Child) × (e.spawn bin args ≡ child c)
          × (busy (proc m id) ≡ false)
          × (e.exists bin ≡ true)
          × (s ≡ (core r.0 id).status)
          × (core r.0 j ≡ (if same_proc id j then started e bin args c (core m j) else core m j)))
      (λ _. cc)
      (λ idle there h.
        let (c, spawned, same) = launch-returned e id (e.spawn bin args) _ s h in
        (c, spawned, idle, there, same, rw (core-launch, core-boot, spawned) (ground arith)))
      (λ _ _. unfold missing in cc)

-- When `start` throws, the process was running, or its binary is missing, or `spawn` threw, and the
-- message says which. The first changes nothing; the other two leave the process in the state
-- `error` with the message, and keep its child.
pub start_thrown :
    (e : Env) (id : ProcId) (bin : Text) (args : List Text) (m : Manager) (msg : Text)
    → (start e id bin args m).1 ≡ thrown msg
    → Refusal e id bin args m msg
start_thrown e id bin args m msg h = elim (Bool-cases (busy (proc m id))) [
  | inl b ↦
      let s = start_busy e id bin args m b in
      running_already b (unfold core in cc s) (ap (λ r. r.0) s)
  | inr b ↦ elim (Bool-cases (e.exists bin)) [
    | inl x ↦
        let s = start_there e id bin args m b x in
        launch-thrown e id (e.spawn bin args) _ msg (ap (λ r. r.1) (sym s) ∙ h)
          (λ r. no_spawn b x r (rw (s, core-launch, core-boot, r, same_proc_refl)))
    | inr x ↦
        let s = start_absent e id bin args m b x in
        let q : msg ≡ not_found bin = unfold missing in cc s in
        no_binary b x q (rw (q, s, core-missing, same_proc_refl))
  ]
]
