-- ===== src/Store/Objects/Tests.antt =====
-- Storing objects at concrete bytes, under a digest that keeps all of them.
use rewind_git_for_ai_agent.Prelude.{ℕ, ◌≤◌, [], ◌∷◌, ◌++◌, length, ◌≡◌, refl, ok, err, pos}
use rewind_git_for_ai_agent.Bytes.{Bytes, bytes_eq, cmp}
use rewind_git_for_ai_agent.Bytes.Words.{to_le}
use rewind_git_for_ai_agent.Domain.Digest.{ObjectId}
use rewind_git_for_ai_agent.Store.Envelope.{magic, encode}
use rewind_git_for_ai_agent.Store.Timeline.{Store, object_digest_mismatch, sql_u64}
use rewind_git_for_ai_agent.Store.Timeline.Tests.{fresh}
use rewind_git_for_ai_agent.Store.Objects.{
  find_file, find_object, check_recorded, add_object, record_object, put_file, put_verified,
  import_object, put_object, load_object,
}
use rewind_git_for_ai_agent.Store.Objects.Kept.{load_object-import_object}

abbrev pub same_bytes : Bytes → ObjectId
same_bytes bytes = record { bytes = bytes }

abbrev word : Bytes
word = 104 ∷ 105 ∷ []

abbrev word_id : ObjectId
word_id = record { bytes = word }

abbrev word_envelope : Bytes
word_envelope = magic ++ (1 ∷ 0 ∷ 0 ∷ 0 ∷ 2 ∷ 0 ∷ 0 ∷ 0 ∷ 0 ∷ 0 ∷ 0 ∷ 0 ∷ word)

abbrev with_word : Store
with_word = record fresh {
  files = record { id = word_id; envelope = word_envelope } ∷ [];
  tables = record fresh.tables {
    objects =
        record {
          id = word_id;
          logical_size = 2;
          stored_size = 18;
          created = record { unix_milliseconds = pos 7 };
        }
        ∷ [];
  };
}

put_object-word :
    put_object same_bytes fresh word (record { unix_milliseconds = pos 7 })
    ≡ ok (record {
      object = record { id = word_id; logical_size = 2; stored_size = 18 };
      store = with_word;
    })
unfolding put_object import_object put_verified put_file find_file encode record_object add_object
    find_object check_recorded sql_u64 bytes_eq cmp to_le
put_object-word = refl

import_object_rejects_other_bytes :
    import_object same_bytes fresh word_id (104 ∷ []) (record { unix_milliseconds = pos 7 })
    ≡ err object_digest_mismatch
unfolding import_object put_verified bytes_eq cmp
import_object_rejects_other_bytes = refl

import_object-word :
    import_object same_bytes fresh word_id word (record { unix_milliseconds = pos 7 })
    ≡ ok (record {
      object = record { id = word_id; logical_size = 2; stored_size = 18 };
      store = with_word;
    })
unfolding put_object
import_object-word = put_object-word

load_object-import_object_example :
    (word_id ≡ word_id)
    × (2 ≡ length word)
    × ((maximum : ℕ)
        → length word ≤ maximum
        → load_object same_bytes with_word word_id maximum ≡ ok word)
    × ((other : ObjectId) (maximum : ℕ) (old : Bytes)
        → load_object same_bytes fresh other maximum ≡ ok old
        → load_object same_bytes with_word other maximum ≡ ok old)
load_object-import_object_example =
    load_object-import_object same_bytes fresh word_id word (record { unix_milliseconds = pos 7 })
      (record {
        object = record { id = word_id; logical_size = 2; stored_size = 18 };
        store = with_word;
      })
      import_object-word
