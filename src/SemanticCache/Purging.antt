-- ===== src/SemanticCache/Purging.antt =====
-- PurgeExpired removes what is expired, and nothing else.
use sochdb_go.Prelude.{
  ℕ, suc, ◌+◌, ◌≡◌, refl, sym, ap, ◌∙◌, inl, inr, In, List, [], ◌∷◌, Bool, true, false, ◌||◌,
  Option, none, some, Bool-cases, if◌then◌else◌, length, arith,
}
use sochdb_go.Prelude.Int.{ℤ}
use sochdb_go.Prelude.Bytes.{Bytes}
use sochdb_go.Prelude.Bytes.Order.{bytes_eq, bytes_eq_iff}
use sochdb_go.Prelude.Bytes.Prefix.{has_prefix}
use sochdb_go.Store.Laws.{LawfulDelete, LawfulScan}
use sochdb_go.Queue.Ops.Scan.{keys_where}
use sochdb_go.Queue.Purge.{holds, holds-keys_where}
use sochdb_go.SemanticCache.{SemanticCache, CacheDb, delete_each, is_expired, purge_expired}

if-twice :
    {A : Type 0} (a b : Bool) (x : Option A)
    → (if b then none else (if a then none else x)) ≡ (if a || b then none else x)
if-twice true true x = refl
if-twice true false x = refl
if-twice false b x = refl

holds-In :
    (p : Bytes × Bytes → Bool) (l : List (Bytes × Bytes)) (j : Bytes)
    → holds (keys_where p l) j ≡ true
    → (v : Bytes) × In (j, v) l
unfolding keys_where
holds-In p [] j h = absurd (cc)
holds-In p ((k, w) ∷ l) j h = elim (Bool-cases (p (k, w))) [
  | inr skipped ↦ let (v, i) = holds-In p l j (rw skipped at h) in (v, inr i)
  | inl taken ↦ elim (Bool-cases (bytes_eq k j)) [
    | inl e ↦ (w, inl (ap (λ b. (b, w)) (sym ((bytes_eq_iff k j).0 e))))
    | inr e ↦ let (v, i) = holds-In p l j (rw e at (rw taken at h)) in (v, inr i)
  ]
]

module _ {S : Type 0} {view : S → Bytes → Option Bytes} {delete : Bytes → S → S × Bool}
    (lawful : LawfulDelete view delete) where
  -- If no deletion fails, all keys are gone, the others are as before, and the count is right.
  delete_each-done :
      (keys : List Bytes) (done : ℕ) (s : S)
      → (delete_each delete keys done s).0 ≡ none
      → ((delete_each delete keys done s).1 ≡ done + length keys)
        × ((j : Bytes)
            → view (delete_each delete keys done s).2 j ≡ (if holds keys j then none else view s j))
  unfolding delete_each
  delete_each-done [] done s h = (omega arith, λ j. refl)
  delete_each-done (key ∷ keys) done s h = elim (Bool-cases (delete key s).1) [
    | inr failed ↦ absurd (let h' = rw failed at h in cc)
    | inl fine ↦
        let (count, gone) = delete_each-done keys (suc done) (delete key s).0 (rw fine at h) in
        rw fine (
          omega arith,
          λ j.
              gone j
              ∙ rw (lawful.delete_done key s j fine)
                  (if-twice (bytes_eq key j) (holds keys j) (view s j)),
        )
  ]

module _ {S F V : Type 0} (db : CacheDb S F V) {view : S → Bytes → Option Bytes}
    (deletes : LawfulDelete view db.delete) (scans : LawfulScan view db.scan) where
  -- On a lawful database, where the scan ends with no error: if PurgeExpired returns no error, it
  -- returns the number of entries it collected; an entry of the cache is gone if it can be read and
  -- is expired, and is as before otherwise; and nothing changes under keys without the cache's
  -- prefix.
  pub purge_expired_removes :
      (now : ℤ) (c : SemanticCache) (s : S)
      → (db.scan c.prefix s).1 ≡ true
      → (purge_expired db now c s).0 ≡ none
      → ((purge_expired db now c s).1
          ≡ length (keys_where (is_expired db now) (db.scan c.prefix s).0))
        × ((j v : Bytes)
            → has_prefix c.prefix j ≡ true
            → view s j ≡ some v
            → view (purge_expired db now c s).2 j
              ≡ (if is_expired db now (j, v) then none else some v))
        × ((j : Bytes)
            → has_prefix c.prefix j ≡ false
            → view (purge_expired db now c s).2 j ≡ view s j)
  unfolding purge_expired
  purge_expired_removes now c s fine h =
      let l : List (Bytes × Bytes) = (db.scan c.prefix s).0 in
      let p : Bytes × Bytes → Bool = is_expired db now in
      let (count, gone) = delete_each-done deletes (keys_where p l) 0 s h in
      (
        omega arith,
        (λ j v under there.
            gone j
            ∙ rw
                (holds-keys_where p l j v (scans.scan_rising c.prefix s)
                  (scans.scan_complete c.prefix s j v fine under there))
                (rw there refl)),
        (λ j other. elim (Bool-cases (holds (keys_where p l) j)) [
          | inl held ↦
              let (v, i) = holds-In p l j held in
              absurd (let sound = (scans.scan_sound c.prefix s j v i).0 in cc)
          | inr free ↦ gone j ∙ rw free refl
        ]),
      )
