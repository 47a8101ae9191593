-- ===== src/World.antt =====
-- The state that the services share: the database connection and the object store behind it.
use minio_3d.Exec.{Exec}
use minio_3d.Sql.{Conn, Sql}
use minio_3d.Storage.{Storage}

pub record World (S : Type 0) : Type 0 where
  pub conn : Conn
  pub objects : S

module _ {ℓ} {S : Type 0} {A : Type ℓ} where
  -- A call that reads and writes the database alone, and one that does so with the objects.
  abbrev pub on_conn : Sql A → Exec (World S) A
  on_conn m w = let (r, c) = m w.conn in (r, record w { conn = c })

  abbrev pub on_objects : Exec S A → Exec (World S) A
  on_objects m w = let (r, s) = m w.objects in (r, record w { objects = s })

abbrev pub stored : {S : Type 0} → Storage S → Storage (World S)
stored store = record {
  upload = λ key body size content_type. on_objects (store.upload key body size content_type);
  get_presigned_url = λ key. on_objects (store.get_presigned_url key);
  exists = λ key. on_objects (store.exists key);
  delete = λ key. on_objects (store.delete key);
}
