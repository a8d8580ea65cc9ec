-- ===== src/Cd.antt =====
-- Content descriptors: include/fcopss/cd.hpp and src/lib/cd.cpp.
-- A `Cd` is modelled by the elements of its `m_cdBlock`.
pub mod Parser
pub mod Equality
pub mod Shape
pub mod Grammar
pub mod Printer
pub mod RoundTrip
pub mod Index
pub mod Wired
pub mod Order
pub mod Optional
pub mod Asterisk
use f_copss.Ndn.{Block}
use f_copss.Prelude.{List}

pub record Cd : Type 0 where
  pub elements : List Block
