-- ===== src/Process/All/Rising.antt =====
-- The merged log has rising ids.
use dspark_edge.Base.{
  ℕ, ◌≤◌, ◌<◌, List, [], ◌∷◌, ◌++◌, arith, Bool-cases, inl, inr, ltb, All, All-append, All-keep,
}
use dspark_edge.Base.Sorting.{insert, sort, sort-All}
use dspark_edge.Types.{LogLine}
use dspark_edge.Process.{Manager}
use dspark_edge.Process.Invariant.{Rising}
use dspark_edge.Process.Distinct.{HasOther, AreApart, IsOld, Rising-IsOld, Distinct}
use dspark_edge.Process.All.{newer, by_id, all_logs}

-- No id stands twice in the list.
abbrev AreDistinct : List LogLine → Type 0
AreDistinct [] = Unit
AreDistinct (l ∷ ls) = All (HasOther l) ls × AreDistinct ls

Rising-HasOther :
    (lo hi : ℕ) (l : LogLine) (ls : List LogLine)
    → l.id ≤ lo
    → Rising lo ls hi
    → All (HasOther l) ls
Rising-HasOther lo hi l [] h r = tt
Rising-HasOther lo hi l (x ∷ ls) h r =
    (λ same. omega (arith, same, h, r.0), Rising-HasOther x.id hi l ls (omega (arith, r.0)) r.1)

Rising-AreDistinct : (lo hi : ℕ) (ls : List LogLine) → Rising lo ls hi → AreDistinct ls
Rising-AreDistinct lo hi [] r = tt
Rising-AreDistinct lo hi (l ∷ ls) r =
    (Rising-HasOther l.id hi l ls (omega arith) r.1, Rising-AreDistinct l.id hi ls r.1)

AreDistinct-append :
    (xs ys : List LogLine)
    → AreDistinct xs
    → AreDistinct ys
    → AreApart xs ys
    → AreDistinct (xs ++ ys)
AreDistinct-append [] ys h k a = k
AreDistinct-append (x ∷ xs) ys h k a =
    (All-append (HasOther x) xs ys h.0 a.0, AreDistinct-append xs ys h.1 k a.1)

AreDistinct-newer : (since : ℕ) (ls : List LogLine) → AreDistinct ls → AreDistinct (newer since ls)
AreDistinct-newer since [] h = tt
AreDistinct-newer since (l ∷ ls) h =
    ground
      (arith, AreDistinct-newer since ls h.1, All-keep (HasOther l) (λ x. ltb since x.id) ls h.0)

-- The ids that a merge may hold: above `lo`, and `hi` at most.
abbrev IsBetween : ℕ → ℕ → LogLine → Type 0
IsBetween lo hi l = (lo < l.id) × (l.id ≤ hi)

newer-IsBetween :
    (since hi : ℕ) (ls : List LogLine)
    → All (IsOld hi) ls
    → All (IsBetween since hi) (newer since ls)
newer-IsBetween since hi [] h = tt
newer-IsBetween since hi (l ∷ ls) h = ground (arith, newer-IsBetween since hi ls h.1)

insert-Rising :
    (lo hi : ℕ) (l : LogLine) (ls : List LogLine)
    → IsBetween lo hi l
    → All (HasOther l) ls
    → Rising lo ls hi
    → Rising lo (insert by_id l ls) hi
unfolding insert
insert-Rising lo hi l [] h k r = (h.0, h.1)
insert-Rising lo hi l (x ∷ ls) h k r = elim (Bool-cases (by_id l x)) [
  | inl b ↦ rw b (h.0, (ground (arith, k.0), r.1))
  | inr b ↦ rw b (r.0, insert-Rising x.id hi l ls (ground arith, h.1) k.1 r.1)
]

sort-Rising :
    (lo hi : ℕ) (ls : List LogLine)
    → lo ≤ hi
    → All (IsBetween lo hi) ls
    → AreDistinct ls
    → Rising lo (sort by_id ls) hi
unfolding sort
sort-Rising lo hi [] h b d = h
sort-Rising lo hi (l ∷ ls) h b d =
    insert-Rising lo hi l (sort by_id ls) b.0 (sort-All by_id (HasOther l) ls d.0)
      (sort-Rising lo hi ls h b.1 d.1)

pub all_logs-Rising :
    (since : ℕ) (m : Manager)
    → since ≤ m.log_seq
    → Distinct m
    → Rising since (all_logs since m) m.log_seq
unfolding all_logs
all_logs-Rising since m h v =
    let s = v.logs.server.rising in
    let d = v.logs.daemon.rising in
    sort-Rising since m.log_seq (newer since (m.server.logs ++ m.daemon.logs)) h
      (newer-IsBetween since m.log_seq (m.server.logs ++ m.daemon.logs) (
        All-append (IsOld m.log_seq) m.server.logs m.daemon.logs
          (Rising-IsOld 0 m.server.logs m.log_seq s) (Rising-IsOld 0 m.daemon.logs m.log_seq d)))
      (AreDistinct-newer since (m.server.logs ++ m.daemon.logs) (
        AreDistinct-append m.server.logs m.daemon.logs
          (Rising-AreDistinct 0 m.log_seq m.server.logs s)
          (Rising-AreDistinct 0 m.log_seq m.daemon.logs d) v.apart))
