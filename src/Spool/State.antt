-- ===== src/Spool/State.antt =====
-- The states of a spooler: what it holds, in memory or on disk.
use pipek.Prelude.{
  ℕ, ◌≡◌, ◌⊎◌, true, false, Option, none, some, List, [], ◌++◌, length, refl, ap, sym, subst, ◌∙◌,
  inl, inr, append-nil, is_some,
}
use pipek.Prelude.Bytes.{Bytes}
use pipek.Prelude.Chunks.{concat, AllBlocks}
use pipek.Crypto.{Crypto}
use pipek.World.{World}
use pipek.Spool.{File, StreamSpooler, tmp_dir}
use pipek.Spool.Image.{image}

-- The file holds the blocks; without a file there are none.
abbrev pub Stored : (C : Crypto) → Bytes → Option File → List Bytes → Type 0
Stored C key none blocks = blocks ≡ []
Stored C key (some f) blocks = (f.sink.room ≡ none) × (f.sink.bytes ≡ image C key 0 blocks)

-- Everything is in memory.
pub record InMemory (s : StreamSpooler) (bs : Bytes) : Type 0 where
  pub closed : s.disk_file ≡ none
  pub buffer : s.mem_buffer ≡ bs
  pub counter : s.block_counter ≡ 0

-- Everything is on disk, in blocks of 64 KiB at most.
pub record OnDisk (C : Crypto) (s : StreamSpooler) (bs : Bytes) : Type 0 where
  pub file : File
  pub blocks : List Bytes
  pub opened : s.disk_file ≡ some file
  pub stored : Stored C s.spool_key (some file) blocks
  pub counter : s.block_counter ≡ length blocks
  pub buffer : s.mem_buffer ≡ []
  pub all : AllBlocks 65536 blocks
  pub whole : concat blocks ≡ bs

abbrev pub Holds : (C : Crypto) → StreamSpooler → Bytes → Type 0
Holds C s bs = InMemory s bs ⊎ OnDisk C s bs

-- A temporary file can be opened, and takes what is written to it.
pub record DiskWorks (w : World) : Type 0 where
  pub opens : w.o_tmpfile (tmp_dir w) ≡ true
  pub room : w.disk_room ≡ none

-- What both states are: blocks on disk, and behind them the buffer.
pub record View (C : Crypto) (s : StreamSpooler) (bs : Bytes) : Type 0 where
  pub blocks : List Bytes
  pub stored : Stored C s.spool_key s.disk_file blocks
  pub counter : s.block_counter ≡ length blocks
  pub all : AllBlocks 65536 blocks
  pub whole : concat blocks ++ s.mem_buffer ≡ bs

module _ (C : Crypto) where
  pub Holds-View : (s : StreamSpooler) (bs : Bytes) → Holds C s bs → View C s bs
  Holds-View s bs (inl m) = record {
    blocks = [];
    stored = rw m.closed;
    counter = m.counter;
    all = tt;
    whole = m.buffer;
  }
  Holds-View s bs (inr d) = record {
    blocks = d.blocks;
    stored = rw d.opened d.stored;
    counter = d.counter;
    all = d.all;
    whole = rw d.buffer (append-nil (concat d.blocks) ∙ d.whole);
  }

  View-Holds_by :
      (o : Option File) (s : StreamSpooler) (bs : Bytes)
      → s.disk_file ≡ o
      → s.mem_buffer ≡ []
      → View C s bs
      → Holds C s bs
  View-Holds_by none s bs e m v =
      let gone : v.blocks ≡ [] = subst (λ o. Stored C s.spool_key o v.blocks) e v.stored in
      inl (record {
        closed = e;
        buffer = ap (λ t. concat t ++ s.mem_buffer) (sym gone) ∙ v.whole;
        counter = v.counter ∙ ap length gone;
      })
  View-Holds_by (some f) s bs e m v = inr (record {
    file = f;
    blocks = v.blocks;
    opened = e;
    stored = subst (λ o. Stored C s.spool_key o v.blocks) e v.stored;
    counter = v.counter;
    buffer = m;
    all = v.all;
    whole = sym (append-nil (concat v.blocks)) ∙ ap (λ t. concat v.blocks ++ t) (sym m) ∙ v.whole;
  })

  -- With an empty buffer the view is one of the two states.
  pub View-Holds : (s : StreamSpooler) (bs : Bytes) → s.mem_buffer ≡ [] → View C s bs → Holds C s bs
  View-Holds s bs m v = View-Holds_by s.disk_file s bs refl m v

  -- The count of bytes has no part in it.
  pub Holds-total :
      (s : StreamSpooler) (n : ℕ) (bs : Bytes)
      → Holds C s bs
      → Holds C (record s { total_bytes = n }) bs
  Holds-total s n bs (inl m) =
      inl (record { closed = m.closed; buffer = m.buffer; counter = m.counter })
  Holds-total s n bs (inr d) = inr (record {
    file = d.file;
    blocks = d.blocks;
    opened = d.opened;
    stored = d.stored;
    counter = d.counter;
    buffer = d.buffer;
    all = d.all;
    whole = d.whole;
  })

  -- A spooler with no file that takes bytes into its buffer.
  pub Holds-buffer :
      (s : StreamSpooler) (bs bytes : Bytes) (n : ℕ)
      → Holds C s bs
      → is_some s.disk_file ≡ false
      → Holds C (record s { mem_buffer = s.mem_buffer ++ bytes; total_bytes = n }) (bs ++ bytes)
  Holds-buffer s bs bytes n (inl m) e =
      inl
        (record { closed = m.closed; buffer = ap (λ t. t ++ bytes) m.buffer; counter = m.counter })
  Holds-buffer s bs bytes n (inr d) e = absurd (cc (rw d.opened at e))
