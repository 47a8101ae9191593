-- ===== src/Storage/Mock/Contents.antt =====
-- testutil/testutil.go: what is in `MockStorage` after any calls of its methods.
use minio_3d.Base.{String, Option, none, some, List, [], ◌∷◌, ◌==◌, if◌then◌else◌}
use minio_3d.Errors.{Error, Result, ok, err}
use minio_3d.Maps.{string_key, find}
use minio_3d.Storage.{Bytes}
use minio_3d.Storage.Mock.{MockStorage, upload_read, delete}

-- `m.objects[key]`
abbrev pub content : String → MockStorage → Option Bytes
content key m = find key m.objects

-- A call that writes, with what reading its body returns.
pub data Call : Type 0 where
  uploading : String → Result Bytes → Call
  deleting : String → Call

unfoldable pub run : List Call → MockStorage → MockStorage
unfolding upload_read delete
run [] m = m
run (uploading key body ∷ cs) m = run cs (upload_read key body m).1
run (deleting key ∷ cs) m = run cs (delete key m).1

-- What the calls make of one object, which is there with its bytes or is not: the errors that a test
-- has set let no call through.
abbrev pub sent : Option Error → Result Bytes → Option Bytes → Option Bytes
sent none (ok bytes) o = some bytes
sent none (err e) o = o
sent (some e) body o = o

abbrev pub dropped : Option Error → Option Bytes → Option Bytes
dropped none o = none
dropped (some e) o = o

abbrev pub becomes : String → Option Error → Option Error → List Call → Option Bytes → Option Bytes
becomes k upload_err delete_err [] o = o
becomes k upload_err delete_err (uploading key body ∷ cs) o =
    becomes k upload_err delete_err cs (if key == k then sent upload_err body o else o)
becomes k upload_err delete_err (deleting key ∷ cs) o =
    becomes k upload_err delete_err cs (if key == k then dropped delete_err o else o)
