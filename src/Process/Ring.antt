-- ===== src/Process/Ring.antt =====
-- The log ring of a process holds the latest lines, in order (`pushLog`).
use dspark_edge.Base.{
  ℕ, suc, ◌-◌, ◌≤◌, ◌≡◌, refl, sym, ap, ◌∙◌, List, [], ◌∷◌, ◌++◌, append_assoc, arith, drop, length,
  length-append, length-take_last, take_last, take_last-append, take_last_of_le, append-nil,
}
use dspark_edge.Base.Text.{Text}
use dspark_edge.Types.{ProcId, server, daemon, Stream, LogLine}
use dspark_edge.Process.{
  Env, Manager, max_log_lines, proc, push_ring, new_line, push_line, push_lines, push_log,
}
use dspark_edge.Process.Lines.{split_lines}

-- The log lines that a list of raw lines becomes: the empty ones are skipped, the others numbered
-- on from `seq`.
pub numbered : Env → ProcId → Stream → ℕ → List Text → List LogLine
numbered e id stream seq [] = []
numbered e id stream seq ([] ∷ rest) = numbered e id stream seq rest
numbered e id stream seq ((c ∷ raw) ∷ rest) =
    record { id = suc seq; proc = id; stream = stream; text = c ∷ raw; ts = e.clock (suc seq) }
    ∷ numbered e id stream (suc seq) rest

push_ring-take_last :
    (logs : List LogLine) (line : LogLine)
    → length logs ≤ max_log_lines
    → push_ring logs line ≡ take_last max_log_lines (logs ++ line ∷ [])
unfolding push_ring
push_ring-take_last logs line h = ground (
  arith,
  length-append logs (line ∷ []),
  ap (λ k. drop k (logs ++ line ∷ [])) {x = length (logs ++ line ∷ []) - 4000} {y = 1},
  ap (λ k. drop k (logs ++ line ∷ [])) {x = length (logs ++ line ∷ []) - 4000} {y = 0},
)

log_seq-push_line :
    (e : Env) (id : ProcId) (stream : Stream) (m : Manager) (raw : Text)
    → (push_line e id stream m raw).log_seq ≡ suc m.log_seq
unfolding push_line
log_seq-push_line e server stream m raw = refl
log_seq-push_line e daemon stream m raw = refl

logs-push_line :
    (e : Env) (id : ProcId) (stream : Stream) (m : Manager) (raw : Text)
    → (proc (push_line e id stream m raw) id).logs
      ≡ push_ring (proc m id).logs (new_line e id stream m raw)
unfolding push_line
logs-push_line e server stream m raw = refl
logs-push_line e daemon stream m raw = refl

logs-push_lines :
    (e : Env) (id : ProcId) (stream : Stream) (m : Manager) (raws : List Text)
    → length (proc m id).logs ≤ max_log_lines
    → (proc (push_lines e id stream m raws) id).logs
      ≡ take_last max_log_lines ((proc m id).logs ++ numbered e id stream m.log_seq raws)
unfolding push_lines numbered
logs-push_lines e id stream m [] h =
    sym (rw append-nil (take_last_of_le max_log_lines (proc m id).logs h))
logs-push_lines e id stream m ([] ∷ rest) h = logs-push_lines e id stream m rest h
logs-push_lines e id stream m ((c ∷ raw) ∷ rest) h =
    let line = new_line e id stream m (c ∷ raw) in
    let m' = push_line e id stream m (c ∷ raw) in
    let here : (proc m' id).logs ≡ take_last max_log_lines ((proc m id).logs ++ line ∷ []) =
      logs-push_line e id stream m (c ∷ raw) ∙ push_ring-take_last (proc m id).logs line h in
    logs-push_lines e id stream m' rest
      (rw here (length-take_last max_log_lines ((proc m id).logs ++ line ∷ [])))
    ∙ rw (here, log_seq-push_line)
        (take_last-append max_log_lines ((proc m id).logs ++ line ∷ [])
            (numbered e id stream (suc m.log_seq) rest)
          ∙ ap (take_last max_log_lines) (append_assoc (proc m id).logs (line ∷ []) _))

-- A chunk of output leaves in the ring the latest 4000 of the lines that stood there followed by
-- the chunk's lines that are not empty, which are numbered on from the counter.
pub logs-push_log :
    (e : Env) (id : ProcId) (stream : Stream) (text : Text) (m : Manager)
    → length (proc m id).logs ≤ max_log_lines
    → (proc (push_log e id stream text m) id).logs
      ≡ take_last max_log_lines
          ((proc m id).logs ++ numbered e id stream m.log_seq (split_lines text))
unfolding push_log
logs-push_log e id stream text m h = logs-push_lines e id stream m (split_lines text) h
