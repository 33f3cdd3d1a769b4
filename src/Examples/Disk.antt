-- ===== src/Examples/Disk.antt =====
-- A file system of one directory and one file, which keeps what is documented of it: permissions
-- are set only on what is there, and no file is renamed onto what is no regular file.
use local_transfer.Prelude.{
  ◌≡◌, ◌≢◌, refl, sym, ap, ◌∙◌, Option, none, some, [], ◌++◌, Bytes, Result, ok, err, length, take,
  ite, if_pos, if_neg, subst,
}
use local_transfer.Prelude.Actions.{Brought}
use local_transfer.Text.{Text, Text-discrete, codes}
use local_transfer.Text.Utf8.{from_utf8}
use local_transfer.FileSystem.{
  FileSystem, Documented, Working, Entry, missing, regular, irregular, IoError, not_found,
  already_exists, other, FileType, regular_file, directory,
}

pub record Disk : Type 0 where
  pub file : Entry
  pub temporary : Bytes

inspect : Entry → Result IoError FileType
inspect missing = err not_found
inspect (regular bytes) = ok regular_file
inspect (irregular file_type) = ok file_type

text_of : Option Text → Result IoError Text
text_of none = err (other 0)
text_of (some text) = ok text

read : Entry → Result IoError Text
unfolding text_of
read missing = err not_found
read (regular bytes) = text_of (from_utf8 bytes)
read (irregular file_type) = err (other 1)

found : Entry → Result IoError (Unit {0})
found missing = err not_found
found e = ok tt

bytes_of : Entry → Bytes
bytes_of missing = []
bytes_of (regular bytes) = bytes
bytes_of (irregular file_type) = []

link : Entry → Bytes → Bytes → Result IoError (Unit {0}) × Disk
link missing new_bytes left = (ok tt, record { file = regular new_bytes; temporary = left })
link e new_bytes left = (err already_exists, record { file = e; temporary = left })

-- The rename of a temporary file.
replaced : Entry → Bytes → Bytes → Result IoError (Unit {0}) × Disk
replaced (irregular t) new_bytes left =
    (err (other 2), record { file = irregular t; temporary = left })
replaced e new_bytes left = (ok tt, record { file = regular new_bytes; temporary = left })

abbrev pub directory_path : Text
directory_path = codes "config/"

unfoldable pub disk : FileSystem Disk
unfolding inspect read found bytes_of link replaced
disk = record {
  Temporary = Unit;
  File = Unit;
  parent = λ p. some directory_path;
  file_name = λ p. some (codes "trusted-peers");
  with_file_name = λ p name. directory_path ++ name;
  symlink_metadata =
      λ p w. (ite (Text-discrete p directory_path) (ok directory) (inspect w.file), w);
  set_permissions = λ p mode w. (ite (Text-discrete p directory_path) (ok tt) (found w.file), w);
  create_dir_all = λ p w. (ok tt, w);
  read_to_string = λ p w. (read w.file, w);
  open_file = λ p w. (found w.file, w);
  open_or_create = λ p mode w. (ok tt, w);
  metadata = λ f w. (ok (record { file_type = regular_file; size = length (bytes_of w.file) }), w);
  read_up_to = λ f n w. (ok (take n (bytes_of w.file)), w);
  sync_all = λ f w. (ok tt, w);
  try_lock = λ f w. (ok tt, w);
  unlock = λ f w. (ok tt, w);
  new_in = λ p w. (ok tt, record w { temporary = [] });
  temporary_path = λ t. codes "config/temporary";
  set_open_permissions = λ t mode w. (ok tt, w);
  write_all = λ t b w. (ok tt, record w { temporary = w.temporary ++ b });
  sync_temporary = λ t w. (ok tt, w);
  persist = λ t p w. replaced w.file w.temporary w.temporary;
  persist_noclobber = λ t p w. link w.file w.temporary w.temporary;
}

no_error : {E A : Type 0} {a : A} {e : E} → ok a ≡ err e → ⊥
no_error h = cc

no_value : {E A : Type 0} {a : A} {e : E} → err e ≡ ok a → ⊥
no_value h = cc

link-ok :
    (e : Entry) (b c : Bytes) (v : Disk)
    → link e b c ≡ (ok tt, v)
    → (e ≡ missing) × (v.file ≡ regular b)
unfolding link
link-ok missing b c v h = (refl, sym (ap (λ r. r.1.file) h))
link-ok (regular x) b c v h = absurd (no_value (ap (λ r. r.0) h))
link-ok (irregular x) b c v h = absurd (no_value (ap (λ r. r.0) h))

link-err : (e : Entry) (b c : Bytes) (x : IoError) (v : Disk) → link e b c ≡ (err x, v) → v.file ≡ e
unfolding link
link-err missing b c x v h = absurd (no_error (ap (λ r. r.0) h))
link-err (regular y) b c x v h = sym (ap (λ r. r.1.file) h)
link-err (irregular y) b c x v h = sym (ap (λ r. r.1.file) h)

replaced-ok :
    (e : Entry) (b c : Bytes) (v : Disk) → replaced e b c ≡ (ok tt, v) → v.file ≡ regular b
unfolding replaced
replaced-ok missing b c v h = sym (ap (λ r. r.1.file) h)
replaced-ok (regular y) b c v h = sym (ap (λ r. r.1.file) h)
replaced-ok (irregular y) b c v h = absurd (no_value (ap (λ r. r.0) h))

replaced-err :
    (e : Entry) (b c : Bytes) (x : IoError) (v : Disk) → replaced e b c ≡ (err x, v) → v.file ≡ e
unfolding replaced
replaced-err missing b c x v h = absurd (no_error (ap (λ r. r.0) h))
replaced-err (regular y) b c x v h = absurd (no_error (ap (λ r. r.0) h))
replaced-err (irregular y) b c x v h = sym (ap (λ r. r.1.file) h)

text_of-ok : (o : Option Text) (s : Text) → text_of o ≡ ok s → o ≡ some s
unfolding text_of
text_of-ok none s h = absurd (no_value h)
text_of-ok (some t) s h = cc

text_of_found : (o : Option Text) → text_of o ≢ err not_found
unfolding text_of
text_of_found none h = cc
text_of_found (some t) h = cc

pub disk-Documented : (path : Text) → Documented disk path
unfolding disk read
disk-Documented path = record {
  entry = λ w. w.file;
  held = λ w t. w.temporary;
  symlink_metadata-Keeps = λ p. record { kept = λ w. refl };
  set_permissions-Keeps = λ p m. record { kept = λ w. refl };
  create_dir_all-Keeps = λ p e. record { kept = λ w. refl };
  read_to_string-Keeps = λ p. record { kept = λ w. refl };
  open_file-Keeps = λ p. record { kept = λ w. refl };
  metadata-Keeps = λ f. record { kept = λ w. refl };
  read_up_to-Keeps = λ f n. record { kept = λ w. refl };
  sync_all-Keeps = λ f. record { kept = λ w. refl };
  open_or_create-Keeps = λ p m n. record { kept = λ w. refl };
  try_lock-Keeps = λ f. record { kept = λ w. refl };
  unlock-Keeps = λ f. record { kept = λ w. refl };
  new_in-Keeps = λ p. record { kept = λ w. refl };
  set_open_permissions-Keeps = λ t m. record { kept = λ w. refl };
  write_all-Keeps = λ t b. record { kept = λ w. refl };
  sync_temporary-Keeps = λ t. record { kept = λ w. refl };
  new_in-ok = λ p w v t h. sym (ap (λ r. r.1.temporary) h);
  set_open_permissions-held = λ t m. record { kept = λ w. refl };
  write_all-ok = λ t b w v h. sym (ap (λ r. r.1.temporary) h);
  sync_temporary-held = λ t. record { kept = λ w. refl };
  persist-ok = λ t f w v h. replaced-ok w.file w.temporary w.temporary v h;
  persist-err = λ t e w v h. replaced-err w.file w.temporary w.temporary e v h;
  persist_noclobber-ok = λ t f w v h. link-ok w.file w.temporary w.temporary v h;
  persist_noclobber-err = λ t e w v h. link-err w.file w.temporary w.temporary e v h;
  read_to_string-ok = λ b s w v p h. text_of-ok (from_utf8 b) s (ap read (sym p) ∙ ap (λ r. r.0) h);
  read_to_string_found =
      λ b w v p h. text_of_found (from_utf8 b) (ap read (sym p) ∙ ap (λ r. r.0) h);
  read_to_string_missing = λ s w v p h. no_value (ap read (sym p) ∙ ap (λ r. r.0) h);
}

-- The entry is the disk's file.
pub disk-entry : (path : Text) (w : Disk) → (disk-Documented path).entry w ≡ w.file
unfolding disk-Documented
disk-entry path w = refl

-- Nothing or a regular file.
abbrev pub Plain : Entry → Type 0
Plain missing = Unit
Plain (regular bytes) = Unit
Plain (irregular file_type) = ⊥

inspect_not_found : (e : Entry) (x : IoError) → inspect e ≡ err x → x ≡ not_found
unfolding inspect
inspect_not_found missing x h = cc
inspect_not_found (regular b) x h = absurd (no_error h)
inspect_not_found (irregular t) x h = absurd (no_error h)

inspect_found : (e : Entry) (t : FileType) → inspect e ≡ ok t → e ≢ missing
unfolding inspect
inspect_found missing t h m = no_value h
inspect_found (regular b) t h m = cc
inspect_found (irregular s) t h m = cc

same_result :
    (w : Disk) (r q : Result IoError (Unit {0}))
    → r ≡ q
    → Brought (λ u v. Plain v.file) (q, w)
    → Brought (λ u v. Plain v.file) (r, w)
same_result w r q e b = rw e b

replaced-Plain :
    (e : Entry) (b c : Bytes) → Plain e → Brought (λ f w. Plain w.file) (replaced e b c)
unfolding replaced
replaced-Plain missing b c p = tt
replaced-Plain (regular y) b c p = tt
replaced-Plain (irregular y) b c p = p

found_present :
    (e : Entry) (w : Disk) → Plain w.file → e ≢ missing → Brought (λ u v. Plain v.file) (found e, w)
unfolding found
found_present missing w p n = absurd (n refl)
found_present (regular b) w p n = p
found_present (irregular t) w p n = p

known_directory : {A : Type 0} (a b : A) → ite (Text-discrete directory_path directory_path) a b ≡ a
known_directory a b =
    if_pos (Text-discrete directory_path directory_path) (refl {a = directory_path}) a b

other_path :
    {A : Type 0} (path : Text) (a b : A)
    → path ≢ directory_path
    → ite (Text-discrete path directory_path) a b ≡ b
other_path path a b n = if_neg (Text-discrete path directory_path) n a b

read_text :
    (w : Disk) (bytes : Bytes) (s : Text)
    → from_utf8 bytes ≡ some s
    → w.file ≡ regular bytes
    → Plain w.file
    → Brought (λ t v. Plain v.file) (read w.file, w)
unfolding read text_of
read_text w bytes s h e p =
    subst (λ r. Brought {A = Text} (λ t v. Plain v.file) (r, w)) (sym (ap read e ∙ ap text_of h)) p

pub disk-Working : (path : Text) → path ≢ directory_path → Working disk path (disk-Documented path)
unfolding disk disk-Documented
disk-Working path apart = record {
  directory_of = directory_path;
  parent_known = refl;
  sound = λ w. Plain w.file;
  made = λ w. Plain w.file;
  live = λ w t. Plain w.file;
  opened = λ w f. Plain w.file;
  made-sound = λ w p. p;
  directory_found = λ w v t p h. subst (λ v. Plain v.file) (ap (λ r. r.1) h) p;
  directory_missing = λ w v e p h. absurd (no_error (sym (known_directory _ _) ∙ ap (λ r. r.0) h));
  file_found = λ w v t p h. (
    subst (λ v. Plain v.file) (ap (λ r. r.1) h) p,
    λ m.
        inspect_found w.file t (sym (other_path path _ _ apart) ∙ ap (λ r. r.0) h)
          (ap (λ r. r.1.file) h ∙ m),
  );
  file_missing = λ w v e p h. (
    inspect_not_found w.file e (sym (other_path path _ _ apart) ∙ ap (λ r. r.0) h),
    subst (λ v. Plain v.file) (ap (λ r. r.1) h) p,
  );
  creates_directory = record { brings = λ w p. p };
  hardens_directory =
      λ m. record { brings = λ w p. same_result w _ _ (known_directory (ok tt) (found w.file)) p };
  hardens_file = λ m. record {
    brings = λ w p.
        same_result w _ _ (other_path path (ok tt) (found w.file) apart)
          (found_present w.file w p.0 p.1);
  };
  makes = record { brings = λ w p. p };
  hardens_temporary = λ t m. record { brings = λ w p. p };
  writes = λ t b. record { brings = λ w p. p };
  syncs_temporary = λ t. record { brings = λ w p. p };
  renames = λ t. record { brings = λ w p. replaced-Plain w.file w.temporary w.temporary p };
  syncs = λ f. record { brings = λ w p. p };
  reads = λ b s h. record { brings = λ w p. read_text w b s h p.1 p.0 };
}

pub disk-sound :
    (path : Text) (apart : path ≢ directory_path) (w : Disk)
    → Plain w.file
    → (disk-Working path apart).sound w
unfolding disk-Working
disk-sound path apart w p = p
