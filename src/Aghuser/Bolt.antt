-- ===== src/Aghuser/Bolt.antt =====
-- What internal/aghuser/sessionstorage.go uses of its database, go.etcd.io/bbolt: the bucket of
-- sessions in a read-write transaction. The operations are parameters of the code, and the laws are
-- the documented behaviour that the properties rely on.
pub mod Memory
use gdns_server.Base.{◌≡◌, ite, Bool, true, false, Option, none, some, List, map, Distinct}
use gdns_server.Base.Dict.{Dict, Text, text_dec, get}

-- A call that can fail gives `none` for an error. `commit` and `rollback` give the database that is
-- left, and whether there is no error.
pub record Bolt (D T : Type 0) : Type 0 where
  pub begin : D → Option T
  pub has_bucket : T → Bool
  pub create_bucket : T → Option T
  pub put_key : T → Text → Text → Option T
  pub delete_key : T → Text → Option T
  pub entries : T → Dict Text Text
  pub commit : D → T → D × Bool
  pub rollback : D → T → D × Bool

-- `stored` is what a database holds under a key, and `pending` what a transaction sees there.
pub record BoltLaws {D T : Type 0} (B : Bolt D T) : Type 0 where
  pub stored : D → Text → Option Text
  pub pending : T → Text → Option Text
  pub entries_distinct : (x : T) → Distinct (map (λ e. e.0) (B.entries x))
  pub begin_view : (d : D) (x : T) → B.begin d ≡ some x → (k : Text) → pending x k ≡ stored d k
  pub create_view : (x y : T) → B.create_bucket x ≡ some y → (k : Text) → pending y k ≡ pending x k
  pub put_view :
      (x y : T) (k v : Text)
      → B.put_key x k v ≡ some y
      → (j : Text) → pending y j ≡ ite (text_dec k j) (some v) (pending x j)
  pub delete_view :
      (x y : T) (k : Text)
      → B.delete_key x k ≡ some y
      → (j : Text) → pending y j ≡ ite (text_dec k j) none (pending x j)
  pub no_bucket_view : (x : T) → B.has_bucket x ≡ false → (k : Text) → pending x k ≡ none
  pub entries_view :
      (x : T) → B.has_bucket x ≡ true → (k : Text) → get text_dec k (B.entries x) ≡ pending x k
  pub commit_view :
      (d : D) (x : T)
      → (B.commit d x).1 ≡ true
      → (k : Text) → stored (B.commit d x).0 k ≡ pending x k
  pub commit_failed :
      (d : D) (x : T)
      → (B.commit d x).1 ≡ false
      → (k : Text) → stored (B.commit d x).0 k ≡ stored d k
  pub rollback_view : (d : D) (x : T) (k : Text) → stored (B.rollback d x).0 k ≡ stored d k
