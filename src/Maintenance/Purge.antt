-- ===== src/Maintenance/Purge.antt =====
-- The loop of deletions and the rows that it leaves.
use rclone_sync_hub_go_backe.Prelude.{
  ℕ, zero, suc, ◌+◌, ◌≤◌, ◌<◌, ◌≡◌, refl, subst, Bool, true, false, ltb, ltb→lt, some, List, [],
  ◌∷◌, length, some_of, arith,
}
use rclone_sync_hub_go_backe.Database.Outcome.{Result, ok, err, Ran}
use rclone_sync_hub_go_backe.Database.Table.{Drops, all_gone, kept, dropped}
use rclone_sync_hub_go_backe.Maintenance.{purge}

pub Drops-length :
    {Row : Type 0} {p : Row → Bool} {rs ss : List Row} {n : ℕ}
    → Drops p rs ss n
    → length rs ≡ n + length ss
Drops-length all_gone = refl
Drops-length (kept d) = omega (arith, Drops-length d)
Drops-length (dropped e d) = omega (arith, Drops-length d)

pub Drops-refl : {Row : Type 0} (p : Row → Bool) (rs : List Row) → Drops p rs rs 0
Drops-refl p [] = all_gone
Drops-refl p (r ∷ rs) = kept (Drops-refl p rs)

pub Drops-trans :
    {Row : Type 0} {p : Row → Bool} {rs ss ts : List Row} {n m : ℕ}
    → Drops p rs ss n
    → Drops p ss ts m
    → Drops p rs ts (n + m)
Drops-trans all_gone all_gone = all_gone
Drops-trans (kept d) (kept e) = kept (Drops-trans d e)
Drops-trans {p} {rs} {ts} (kept d) (dropped h e) =
    subst (Drops p rs ts) (omega arith) (dropped h (Drops-trans d e))
Drops-trans {p} {rs} {ts} (dropped h d) e =
    subst (Drops p rs ts) (omega arith) (dropped h (Drops-trans d e))

-- Rows that meet the condition are gone, all of them if there was no error, and `Same` holds of the
-- states before and after.
module _ {D Row : Type 0} (rows : D → List Row) (p : Row → Bool) (Same : D → D → Type 0) where
  pub record IsPurged (d : D) (x : Result (Unit {0}) × D) : Type 0 where
    pub count : ℕ
    pub drops : Drops p (rows d) (rows x.1) count
    pub none_left : x.0 ≡ ok tt → some_of p (rows x.1) ≡ false
    pub same : Same d x.1

  module _ (delete : ℕ → D → Result (ℕ × D)) (size : ℕ) (positive : 0 < size)
      (Same-refl : (d : D) → Same d d) (Same-trans : (d e f : D) → Same d e → Same e f → Same d f)
      (law : (d : D)
        → Ran
            (λ n d'.
              Drops p (rows d) (rows d') n
              × (n ≤ size)
              × (n < size → some_of p (rows d') ≡ false)
              × Same d d')
            (delete size d)) where
    -- With more rounds than there are rows, the loop ends.
    pub purge-IsPurged :
        (rounds : ℕ) (d : D)
        → length (rows d) < rounds
        → (x : Result (Unit {0}) × D) × (purge delete size rounds d ≡ some x) × IsPurged d x
    unfolding purge
    purge-IsPurged zero d h = absurd (omega (arith, h))
    purge-IsPurged (suc rounds) d h =
        round (λ d' l. purge-IsPurged rounds d' l) (delete size d) (law d)
      where
        ended :
            ((d' : D)
              → length (rows d') < rounds
              → (x : Result (Unit {0}) × D) × (purge delete size rounds d' ≡ some x)
                × IsPurged d' x)
            → (n : ℕ) (d' : D) (b : Bool) → ltb n size ≡ b
            → Drops p (rows d) (rows d') n
              × (n ≤ size)
              × (n < size → some_of p (rows d') ≡ false)
              × Same d d'
            → (x : Result (Unit {0}) × D) × ((elim b [
              | true ↦ some (ok tt, d')
              | false ↦ purge delete size rounds d'
            ])
                ≡ some x)
              × IsPurged d x
        ended ih n d' true e q = (
          (ok tt, d'),
          refl,
          record { count = n; drops = q.0; none_left = λ k. q.2 (ltb→lt n size e); same = q.3 },
        )
        ended ih n d' false e q = further (ih d' shorter)
          where
            shorter : length (rows d') < rounds
            shorter = fewer (Drops-length q.0) (q.1)
              where
                fewer :
                    length (rows d) ≡ n + length (rows d') → n ≤ size → length (rows d') < rounds
                fewer l m = ground (arith, h, positive, e)

            further :
                (x : Result (Unit {0}) × D) × (purge delete size rounds d' ≡ some x) × IsPurged d' x
                → (x : Result (Unit {0}) × D) × (purge delete size rounds d' ≡ some x)
                  × IsPurged d x
            further (x, l, k) = (
              x,
              l,
              record {
                count = n + k.count;
                drops = Drops-trans q.0 k.drops;
                none_left = k.none_left;
                same = Same-trans d d' x.1 q.3 k.same;
              },
            )

        round :
            ((d' : D)
              → length (rows d') < rounds
              → (x : Result (Unit {0}) × D) × (purge delete size rounds d' ≡ some x)
                × IsPurged d' x)
            → (r : Result (ℕ × D))
            → Ran
                (λ n d'.
                  Drops p (rows d) (rows d') n
                  × (n ≤ size)
                  × (n < size → some_of p (rows d') ≡ false)
                  × Same d d')
                r
            → (x : Result (Unit {0}) × D) × ((elim r [
              | err e ↦ some (err e, d)
              | ok x ↦ elim (ltb x.0 size) [
                | true ↦ some (ok tt, x.1)
                | false ↦ purge delete size rounds x.1
              ]
            ])
                ≡ some x)
              × IsPurged d x
        round ih (err e) q = (
          (err e, d),
          refl,
          record {
            count = 0;
            drops = Drops-refl p (rows d);
            none_left = λ k. absurd (failed (err e) refl k);
            same = Same-refl d;
          },
        )
          where
            failed : (x : Result (Unit {0})) → x ≡ err e → x ≡ ok tt → ⊥
            failed x h k = cc
        round ih (ok (n, d')) q = ended ih n d' (ltb n size) refl q
