-- ===== src/Metadata/Bolt.antt =====
-- What pkg/metadata uses of github.com/boltdb/bolt and encoding/json, neither of which is in the
-- repository: top-level buckets of key/value pairs, cursors, transactions, and the encoding.
use virtlet.Prelude.{Str, str_eq, Bool, false, ◌&&◌, Option, none, some, List, ◌≡◌, if◌then◌else◌}
use virtlet.Result.{Result, ok, err, fault}
use virtlet.Prog.{Prog}

-- `Db` is what a transaction sees.
pub record Bolt : Type 1 where
  pub Db : Type 0
  -- tx.Bucket(name) != nil
  pub has_bucket : Str → Db → Bool
  pub create_bucket_if_not_exists : Str → Prog Db (Unit {0})
  pub delete_bucket : Str → Prog Db (Unit {0})
  -- bucket.Get, bucket.Put and bucket.Delete, of a bucket and a key
  pub get : Str → Str → Db → Option Str
  pub put : Str → Str → Str → Prog Db (Unit {0})
  pub delete : Str → Str → Prog Db (Unit {0})
  -- the names or keys from which Seek and Next go on, in the order of the cursor
  pub seek_buckets : Str → Db → List Str
  pub seek : Str → Str → Db → List Str
  -- the end of a read-write transaction
  pub commit : Db → Result (Unit {0})

module _ (b : Bolt) where
  open b use {Db, has_bucket, create_bucket_if_not_exists, delete_bucket, get, put, delete}

  -- The documented behaviour, where a call succeeds.
  pub record BoltLaws : Type 0 where
    pub get_absent : (n k : Str) (db : Db) → has_bucket n db ≡ false → get n k db ≡ none
    pub get-create :
        (n c k : Str) (db db' : Db)
        → create_bucket_if_not_exists n db ≡ (ok tt, db')
        → get c k db' ≡ get c k db
    pub get-put :
        (n k v c j : Str) (db db' : Db)
        → put n k v db ≡ (ok tt, db')
        → get c j db' ≡ (if str_eq n c && str_eq k j then some v else get c j db)
    pub get-delete :
        (n k c j : Str) (db db' : Db)
        → delete n k db ≡ (ok tt, db')
        → get c j db' ≡ (if str_eq n c && str_eq k j then none else get c j db)
    pub get-delete_bucket :
        (n c k : Str) (db db' : Db)
        → delete_bucket n db ≡ (ok tt, db')
        → get c k db' ≡ (if str_eq n c then none else get c k db)

-- json.Marshal and json.Unmarshal at one type.
pub record Codec (A : Type 0) : Type 0 where
  pub marshal : A → Result Str
  pub unmarshal : Str → Result A
  pub unmarshal-marshal : (a : A) (s : Str) → marshal a ≡ ok s → unmarshal s ≡ ok a

-- A value that is not there is nil.
unfoldable pub decode : {A : Type 0} → Codec A → Option Str → Result (Option A)
decode c none = ok none
decode c (some s) = elim (c.unmarshal s) [ ok a ↦ ok (some a) | err e ↦ err e | fault f ↦ fault f ]

module _ (b : Bolt) where
  -- db.Update: what the function wrote is kept only if it and the commit succeed.
  abbrev pub committed : {A : Type 0} → b.Db → Result A → Result (Unit {0}) → b.Db → Result A × b.Db
  committed db (ok a) (ok u) db' = (ok a, db')
  committed db (ok a) (err e) db' = (err e, db)
  committed db (ok a) (fault f) db' = (fault f, db)
  committed db (err e) c db' = (err e, db)
  committed db (fault f) c db' = (fault f, db)

  unfoldable pub update : {A : Type 0} → Prog b.Db A → Prog b.Db A
  update m db = let (r, db') = m db in committed db r (b.commit db') db'
