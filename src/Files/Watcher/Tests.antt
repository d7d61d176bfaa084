-- ===== src/Files/Watcher/Tests.antt =====
-- A file through the watcher.
use mathlib.Core.List.Perm
use bank_ods_unified_api.Prelude.{◌≡◌, refl, true, false, none, some, [], ◌∷◌}
use bank_ods_unified_api.Prelude.Text.{codes, compare_text}
use bank_ods_unified_api.Bus.Producer.{Kafka}
use bank_ods_unified_api.State.{StateDoc}
use bank_ods_unified_api.State.Memory.{memory}
use bank_ods_unified_api.Files.Watcher.{
  Environment, World, discover, insert_name, stamped_name, last_dot,
}

abbrev kafka : {M : Type 0} → Kafka M
kafka = record {
  serializes = λ m. true;
  full = λ q. false;
  still_full = λ q. false;
  flush = λ q. record { landed = q; failures = []; remaining = 0 };
  delivered = λ q f r. Perm.refl q;
}

abbrev env : Environment
env = record {
  codec = record { encode = λ s. s; decode = λ b. some b; decode-encode = λ s. refl };
  sha256_hex = λ s. s;
  error_text = λ e. [];
  now = codes "now";
  seconds = 7;
  faults = record { lookup = false; ledger = none; letters = none; move = none };
}

abbrev world : World (memory StateDoc)
world = record {
  landing = (codes "b.dat", codes "99") ∷ (codes "a.dat.tmp", []) ∷ (codes "a.dat", []) ∷ [];
  archive = [];
  quarantine = [];
  details = [];
  manifests = [];
  letters = [];
  store = [];
}

-- A file that is still being written is not taken, and a name that is there gets a stamp.
completed : discover (λ n. true) world.landing ≡ codes "a.dat" ∷ codes "b.dat" ∷ []
unfolding discover insert_name compare_text
completed = refl

stamped : stamped_name (codes "a.b.dat") (codes "7") ≡ codes "a.b.7.dat"
unfolding stamped_name last_dot
stamped = refl
