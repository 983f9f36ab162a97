-- ===== src/Tests/Rings.antt =====
-- A clipboard.
use copysync.Prelude.{none, some, [], Text, Bytes, codes}
use copysync.Engine.Watcher.{Reads}

abbrev pub copied : Reads
copied = record {
  seq = none;
  image = none;
  files = none;
  text = some (codes "hi");
  html = none;
  formats = [];
  virtual_names = none;
}

-- The digest of this file: the bytes themselves.
abbrev pub digest : Bytes → Text
digest b = b
