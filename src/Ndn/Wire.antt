-- ===== src/Ndn/Wire.antt =====
-- `ndn::Block::fromBuffer`, as an interface: it tries to read one block from the front of a buffer.
-- A block is given by its octets, so `block.size()` is their number.
use f_copss.Prelude.{◌<◌, ◌≡◌, ◌++◌, Option, some, Bytes, length}

pub record Wire : Type 0 where
  pub from_buffer : Bytes → Option Bytes
  -- What is read is the front of the buffer, and never empty: a block has a type and a length.
  pub from_buffer-front : (s w : Bytes) → from_buffer s ≡ some w → (rest : Bytes) × (s ≡ w ++ rest)
  pub from_buffer-positive : (s w : Bytes) → from_buffer s ≡ some w → 0 < length w
  -- Octets behind the block do not matter.
  pub from_buffer-local :
      (w rest other : Bytes) → from_buffer (w ++ rest) ≡ some w → from_buffer (w ++ other) ≡ some w
