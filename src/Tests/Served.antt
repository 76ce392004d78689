-- ===== src/Tests/Served.antt =====
-- The server's store with one grain, and the witnesses of its theorems.
use grainstore.Base.{ℕ, ◌≤◌, ◌≡◌, refl, List, [], ◌∷◌, All, some, true, length}
use grainstore.Base.HashMap
use grainstore.Bytes.{be_bytes, le_bytes, from_be_bytes, bytes_cmp, starts_with}
use grainstore.Catalog
use grainstore.Cdc
use grainstore.Disclosure
use grainstore.Error.{ok}
use grainstore.Keys.{grain_key, seek_target, not_u64, grain_prefix, t_tx_from_key}
use grainstore.Kv
use grainstore.Kv.{seek_ge}
use grainstore.Query.{near_join_select}
use grainstore.Engine
use grainstore.Server.{
  Store, GrainRec, QueryHit, encode_val, decode_val, matches, hit_of, load, load_loop, loaded,
  query,
}
use grainstore.Server.Answers.{Fits, query-Fits}
use grainstore.Server.Repeated.{SameTruth, load-SameTruth}
use grainstore.Server.Text.{embed_text}
use grainstore.Sort.{sort_by}
use grainstore.Tests.Blocks.{whole}
use grainstore.Tests.Index.{fixed_index, candidates}
use grainstore.Truth.{get, get_at}
use grainstore.Wal
use grainstore.Wal.{encode_value, decode_value, encode_frame, encode_payload}
use grainstore.Wal.Crc.{crc32}
use grainstore.Truth
use grainstore.Wal.Commit.{synced, failed, commit_batch, stage, stage_new, write_buf, finish}

-- The conversion from UTF-8 on bytes below 128.
abbrev pub ascii : List ℕ → List ℕ
ascii text = text

abbrev pub served : Store fixed_index
served = record {
  engine = record {
    truth = record {
      committer = record {
        file = 1 ∷ [];
        kv = record Kv.new {
          grains =
              (grain_key 7 0 1, encode_value 0 (3 ∷ 0 ∷ 0 ∷ 0 ∷ 0 ∷ 0 ∷ 0 ∷ 0 ∷ 250 ∷ 65 ∷ []) 0 0)
              ∷ [];
        };
        hlc = 1;
        idem = (7, 1) ∷ [];
        healthy = 0;
        cdc = Cdc.new;
      };
      running = true;
    };
    index = candidates;
    catalog = Catalog.new;
    continuations = Disclosure.new 4;
  };
  last_seq = 1;
  dim = 1;
}

abbrev hits : List QueryHit
hits = record { sid = 7; category = 3; amount = 250; text = 65 ∷ []; distance = 5 } ∷ []

served-hits :
    query fixed_index whole ascii served [] (some 3) (some 100) (some 300) 4 ≡ some (ok hits)
unfolding query Engine.query matches decode_val hit_of embed_text near_join_select get get_at
    seek_ge bytes_cmp grain_key be_bytes seek_target not_u64 starts_with grain_prefix decode_value
    encode_value sort_by from_be_bytes t_tx_from_key
served-hits = refl

query-Fits_example : (length hits ≤ 4) × All (Fits ascii (some 3) (some 100) (some 300)) hits
query-Fits_example =
    query-Fits ascii (some 3) (some 100) (some 300) fixed_index whole served [] 4 hits served-hits

-- Other than what is stored for sid 7.
abbrev changed : GrainRec
changed = record { sid = 7; category = 4; amount = 1; text = 66 ∷ [] }

-- A grain with a new sid.
abbrev added : GrainRec
added = record { sid = 9; category = 3; amount = 5; text = 67 ∷ [] }

added_answer : (load fixed_index served ((added, synced) ∷ [])).1 ≡ ok 1
unfolding load load_loop loaded Engine.put_raw Engine.written Truth.put Wal.put Truth.commit
    commit_batch stage stage_new write_buf finish HashMap.get encode_val be_bytes encode_frame
    encode_payload crc32 le_bytes
added_answer = refl

load-SameTruth_example :
    ((load fixed_index
        (load fixed_index served ((added, synced) ∷ [])).0
        ((record added { category = 4 }, failed 0) ∷ [])).1
      ≡ ok 1)
    × SameTruth
        (load fixed_index
          (load fixed_index served ((added, synced) ∷ [])).0
          ((record added { category = 4 }, failed 0) ∷ [])).0.engine.truth
        (load fixed_index served ((added, synced) ∷ [])).0.engine.truth
load-SameTruth_example =
    load-SameTruth fixed_index served ((added, synced) ∷ [])
      ((record added { category = 4 }, failed 0) ∷ []) 1 refl added_answer refl
