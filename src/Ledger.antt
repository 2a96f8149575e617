-- ===== src/Ledger.antt =====
-- What the agreements of a peer promise, without signatures, posts and timestamps: an append-only
-- ledger with a page for each fork, in which a page only grows at its end.
pub mod Prefix
pub mod Changes
pub mod View
pub mod Refine
pub mod Valid
pub mod Open
use state_channels_plus.Prelude.{
  ℕ, ◌+◌, ◌≡◌, List, [], ◌∷◌, ◌++◌, length, get_elem?, modify_at, some,
}
use state_channels_plus.Data.{Bytes, Block, get_fork, get_height}

pub record Entry : Type 0 where
  pub block : Block
  pub state : Bytes

pub record Page : Type 0 where
  pub genesis : Bytes
  pub entries : List Entry

abbrev pub Ledger : Type 0
Ledger = List Page

abbrev pub new_page : Bytes → Page
new_page g = record { genesis = g; entries = [] }

abbrev pub write : Entry → Page → Page
write e p = record p { entries = p.entries ++ e ∷ [] }

-- Nothing happens, a page is opened, or an entry is written at the end of a page: a block that names this place, with a state that has the hash that the block names.
pub data Grows (hash : Bytes → Bytes) : Ledger → Ledger → Type 0 where
  stays : {l : Ledger} → Grows hash l l
  opens : {l : Ledger} (g : Bytes) → Grows hash l (l ++ new_page g ∷ [])
  writes :
      {l : Ledger} (p : Page) (e : Entry)
      → get_elem? l (get_fork e.block) ≡ some p
      → get_height e.block ≡ length p.entries
      → e.block.state_hash ≡ hash e.state
      → Grows hash l (modify_at (write e) (get_fork e.block) l)

pub data History (hash : Bytes → Bytes) (l : Ledger) : Ledger → Type 0 where
  here : History hash l l
  next : {m n : Ledger} → History hash l m → Grows hash m n → History hash l n
