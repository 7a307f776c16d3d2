-- ===== src/Spool/Traces.antt =====
-- What a write to the spooler leaves behind in the world.
use pipek.Prelude.{
  ℕ, ◌&&◌, not, is_some, leb, ◌+◌, ◌%◌, ◌≡◌, refl, ◌∙◌, ap, subst, String, ◌<>◌, false, ◌⊎◌, inl,
  inr, Bool-cases, Option, none, some, List, [], ◌∷◌, Result, ok, pure, ◌>>=◌, map_err_of, is_empty,
  length, str_eq, Option-cases, if◌then◌else◌,
}
use text.Mathlib.TextEquality.{eq_iff}
use pipek.Prelude.Bytes.{Bytes, be32}
use pipek.Prelude.Text.{decimal}
use pipek.Prelude.Chunks.{chunks}
use pipek.Error.{IoError}
use pipek.World.{World, fill_bytes}
use pipek.World.Files.{find_file, without_file, create_file, remove_file}
use pipek.World.Keeps.{
  IsOrder, Keeps, Keeps-at, Keeps-of, Keeps-bind, Keeps-mapped, Keeps-if, Keeps-pure, Keeps-lift,
  Keeps-test,
}
use pipek.Crypto.{Crypto}
use pipek.Spool.{
  File, StreamSpooler, open_anonymous_tmpfile, named_tmpfile, open_file, flush_single_block_to_disk,
  flush_blocks, spill, write_chunk, ignore, empty_file, from_le, file_write, exceeds, limit_error,
  tmp_dir,
}

-- Nothing is changed but the count of random bytes drawn and the files.
abbrev pub OnlyDisk : World → World → Type 0
OnlyDisk w u = u ≡ record w { drawn = u.drawn; files = u.files }

-- Every path has the file that it had before, or none.
abbrev pub NoNewFile : World → World → Type 0
NoNewFile w u =
    (p : String) → (find_file p u.files ≡ find_file p w.files) ⊎ (find_file p u.files ≡ none)

-- Where files are removed as asked, no new one is left.
abbrev Leaves : World → World → Type 0
Leaves w u = OnlyDisk w u × (((p : String) → w.unlink p ≡ none) → NoNewFile w u)

Leaves-IsOrder : IsOrder Leaves
Leaves-IsOrder = record {
  same = λ w. (refl, λ h p. inl refl);
  trans = λ w u v a b. (
    b.0 ∙ ap {A = World} (λ t. record t { drawn = v.drawn; files = v.files }) a.0,
    λ h p. elim (b.1 (λ q. ap (λ t. t.unlink q) a.0 ∙ h q) p) [
      | inr gone ↦ inr gone
      | inl same ↦ elim (a.1 h p) [
        | inl before ↦ inl (same ∙ before)
        | inr gone ↦ inr (same ∙ gone)
      ]
    ],
  );
}

find_file-without_self :
    (q : String) (files : List (String × Result IoError Bytes))
    → find_file q (without_file q files) ≡ none
unfolding find_file without_file
find_file-without_self q [] = refl
find_file-without_self q ((x, r) ∷ files) = elim (Bool-cases (str_eq q x)) [
  | inl e ↦ rw e (find_file-without_self q files)
  | inr e ↦ rw (e, find_file, e) (find_file-without_self q files)
]

find_file-without_other :
    (p q : String) (files : List (String × Result IoError Bytes))
    → str_eq p q ≡ false
    → find_file p (without_file q files) ≡ find_file p files
unfolding find_file without_file
find_file-without_other p q [] h = refl
find_file-without_other p q ((x, r) ∷ files) h =
    let rest = find_file-without_other p q files h in
    elim (Bool-cases (str_eq q x)) [
      | inl e ↦
          let other : str_eq p x ≡ false = subst (λ t. str_eq p t ≡ false) ((eq_iff q x).0 e) h in
          rw (e, other) rest
      | inr e ↦ rw e (ap (λ t. if str_eq p x then some r else t) rest)
    ]

find_file-other :
    (p q : String) (r : Result IoError Bytes) (files : List (String × Result IoError Bytes))
    → str_eq p q ≡ false
    → find_file p ((q, r) ∷ files) ≡ find_file p files
unfolding find_file
find_file-other p q r files e = rw e refl

-- A file that is made and removed.
made_removed :
    (path : String) (files : List (String × Result IoError Bytes)) (p : String)
    → let left = find_file p (without_file path ((path, ok []) ∷ without_file path files)) in
      (left ≡ find_file p files) ⊎ (left ≡ none)
made_removed path files p = elim (Bool-cases (str_eq p path)) [
  | inl e ↦ inr (
      ap (λ t. find_file t (without_file path ((path, ok []) ∷ without_file path files)))
        ((eq_iff p path).0 e)
      ∙ find_file-without_self path _)
  | inr e ↦ inl (
      find_file-without_other p path ((path, ok []) ∷ without_file path files) e
      ∙ find_file-other p path (ok []) (without_file path files) e
      ∙ find_file-without_other p path files e)
]

-- Making the file and removing it, from the world `w`.
named_in :
    (path : String) (w : World)
    → Leaves w
        ((create_file path >>= λ _. ignore (remove_file path) >>= λ _ v. (ok (empty_file v), v))
          w).1
unfolding create_file remove_file
named_in path w = elim (Option-cases (w.create path)) [
  | inr (e, failed) ↦ rw (create_file, failed) (refl, λ h p. inl refl)
  | inl made ↦ elim (Option-cases (w.unlink path)) [
    | inl works ↦
        rw (create_file, made, remove_file, works) (refl, λ h p. made_removed path w.files p)
    | inr (e, failed) ↦
        rw (create_file, made, remove_file, failed) (refl, λ h p. absurd (cc (failed, h path)))
  ]
]

fill_bytes-Leaves : (E : Type 0) (n : ℕ) → Keeps Leaves {E = E} (fill_bytes n)
unfolding fill_bytes
fill_bytes-Leaves E n = Keeps-at _ _ λ w. (refl, λ h p. inl refl)

named_tmpfile-Leaves : (dir : String) → Keeps Leaves (named_tmpfile dir)
unfolding named_tmpfile
named_tmpfile-Leaves dir = Keeps-at _ _ λ w.
    Keeps-of _ _
      (Keeps-bind Leaves Leaves-IsOrder (fill_bytes 8) _ (fill_bytes-Leaves IoError 8) λ random.
        Keeps-at _ _ (
          named_in
            (dir <> ("/.pipe-k1_spool_" <> (decimal w.pid <> ("_" <> decimal (from_le random)))))))
      w

module _ (C : Crypto) where
  open_file-Leaves : (f : Option File) → Keeps Leaves (open_file C f)
  unfolding open_anonymous_tmpfile
  open_file-Leaves (some f) = Keeps-at _ _ λ w. (refl, λ h p. inl refl)
  open_file-Leaves none = Keeps-at _ _ λ w. elim (Bool-cases (w.o_tmpfile (tmp_dir w))) [
    | inl e ↦ rw e (refl, λ h p. inl refl)
    | inr e ↦ rw e (Keeps-of _ _ (named_tmpfile-Leaves (tmp_dir w)) w)
  ]

  flush_block-Leaves :
      (b : Bytes) (s : StreamSpooler) → Keeps Leaves (flush_single_block_to_disk C b s)
  unfolding flush_single_block_to_disk
  flush_block-Leaves b s =
      let O = Leaves-IsOrder in
      Keeps-bind Leaves O _ _ (open_file-Leaves s.disk_file) λ file.
        Keeps-bind Leaves O _ _ (Keeps-lift Leaves O _) λ sealed.
          Keeps-bind Leaves O _ _ (Keeps-lift Leaves O (file_write (be32 (length b)) file)) λ file.
            Keeps-bind Leaves O _ _ (Keeps-lift Leaves O (file_write sealed.0 file)) λ file.
              Keeps-bind Leaves O _ _ (Keeps-lift Leaves O (file_write sealed.1 file))
                λ file. Keeps-pure Leaves O IoError _

  flush_blocks-Leaves : (bs : List Bytes) (s : StreamSpooler) → Keeps Leaves (flush_blocks C bs s)
  unfolding flush_blocks
  flush_blocks-Leaves [] s = Keeps-pure Leaves Leaves-IsOrder _ s
  flush_blocks-Leaves (b ∷ bs) s =
      Keeps-bind Leaves Leaves-IsOrder _ _ (flush_block-Leaves b s) (flush_blocks-Leaves bs)

  spill-Leaves : (bytes : Bytes) (s : StreamSpooler) → Keeps Leaves (spill C bytes s)
  unfolding spill
  spill-Leaves bytes s =
      Keeps-bind Leaves Leaves-IsOrder _ _
        (Keeps-if Leaves (is_empty s.mem_buffer) (pure s)
          (map_err_of (λ e. "Spool spill error: " <> e.message)
            (flush_blocks C (chunks 65536 s.mem_buffer) (record s { mem_buffer = [] })))
          (Keeps-pure Leaves Leaves-IsOrder _ s)
          (Keeps-mapped Leaves (λ e. "Spool spill error: " <> e.message) _
            (flush_blocks-Leaves (chunks 65536 s.mem_buffer) (record s { mem_buffer = [] }))))
        λ s.
          Keeps-mapped Leaves (λ e. "Spool disk write error: " <> e.message) _
            (flush_blocks-Leaves (chunks 65536 bytes) s)

  write_chunk-Leaves : (bytes : Bytes) (s : StreamSpooler) → Keeps Leaves (write_chunk C bytes s)
  unfolding write_chunk
  write_chunk-Leaves bytes s =
      let total : ℕ = (s.total_bytes + length bytes) % 18446744073709551616 in
      Keeps-bind Leaves Leaves-IsOrder _ _
        (Keeps-test Leaves Leaves-IsOrder (exceeds s.max_size total) (limit_error s.max_size))
        λ _.
          Keeps-if Leaves
            (not (is_some s.disk_file) && leb (length s.mem_buffer + length bytes) 16777216) _ _
            (Keeps-pure Leaves Leaves-IsOrder String _) (spill-Leaves bytes _)

  pub write_chunk-OnlyDisk :
      (bytes : Bytes) (s : StreamSpooler) (w : World) → OnlyDisk w (write_chunk C bytes s w).1
  write_chunk-OnlyDisk bytes s w = (Keeps-of _ _ (write_chunk-Leaves bytes s) w).0

  -- A write to the spooler, whether or not it succeeds, changes nothing of the world but the count
  -- of random bytes drawn and the files. Where files can be removed, it leaves no new file: every
  -- path has the file that it had before, or none.
  pub write_chunk-NoNewFile :
      (bytes : Bytes) (s : StreamSpooler) (w : World)
      → ((p : String) → w.unlink p ≡ none)
      → OnlyDisk w (write_chunk C bytes s w).1 × NoNewFile w (write_chunk C bytes s w).1
  write_chunk-NoNewFile bytes s w removes =
      let (disk, none_new) = Keeps-of _ _ (write_chunk-Leaves bytes s) w in (disk, none_new removes)
