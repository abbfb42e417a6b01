-- ===== src/Encryption/Certificates/Tests.antt =====
-- Certificates on a disk with one other file.
use spark_db.Prelude.{◌≡◌, refl, [], ◌∷◌, true, false, ok, err, wrapf, reported, ◌&&◌, lookup}
use spark_db.Database.Manager.{is_present}
use spark_db.Disk.{Disk, stat, read_file}
use spark_db.Encryption.Certificates.{ensure_cert_files, tls_server_config}
use spark_db.Encryption.Certificates.Usable.{ensure_cert_files_usable}
use spark_db.Encryption.Certificates.Examples.{paper, paper-Issues}

abbrev disk : Disk
disk = record {
  files = ("a.crt", record { content = 9 ∷ []; modified = 1 }) ∷ [];
  clock = 3;
  writable = λ path. true;
}

missing : is_present (stat "a.crt" disk) && is_present (stat "a.key" disk) ≡ false
unfolding lookup
missing = refl

-- An old certificate without its key is written over.
renewed :
    tls_server_config paper "a.crt" "a.key" (ensure_cert_files paper "a.crt" "a.key" disk).1 ≡ ok tt
renewed =
    (ensure_cert_files_usable paper paper-Issues "a.crt" "a.key" disk refl refl refl missing).1

-- A certificate of another key does not load.
old_certificate :
    tls_server_config paper "a.crt" "a.crt" disk
    ≡ err (wrapf "load TLS cert" (reported "tls: private key does not match public key"))
unfolding tls_server_config read_file lookup
old_certificate = refl
