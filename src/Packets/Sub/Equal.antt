-- ===== src/Packets/Sub/Equal.antt =====
-- `operator==` of src/lib/sub.cpp, which compares the blocks.
use f_copss.Ndn.{Ndn}
use f_copss.Packets.Sub.{Sub, equals}
use f_copss.Packets.Sub.Coherent.{Reached, wire_encode-cd}
use f_copss.Packets.{ok, Encoding, decode_sub}
use f_copss.Router.Forwarder.{sub}
use f_copss.Prelude.{ap, ◌∙◌, sym, true, ◌≡◌}

module _ ⦃encoding : Encoding⦄ ⦃ndn : Ndn⦄ where
  -- Subscriptions that compare equal are for the same descriptor. The converse needs that neither
  -- keeps a block with further elements.
  equals-cd :
      (a b left right : Sub)
      → Reached a
      → Reached b
      → equals a b ≡ ok (true, left, right)
      → a.cd ≡ b.cd
  unfolding equals
  equals-cd a b left right reached_a reached_b e =
      let (wire_a, after_a, encodes_a, decodes_a, _) = wire_encode-cd a reached_a in
      let (wire_b, after_b, encodes_b, decodes_b, _) = wire_encode-cd b reached_b in
      let e₁ = rw (encodes_a, encodes_b) at e in
      let e₂ : ndn.block_eq wire_a wire_b ≡ true = cc in
      let same = (ndn.block_eq_iff wire_a wire_b).0 e₂ in
      let e₃ : ok (sub a.cd) ≡ ok (sub b.cd) = sym decodes_a ∙ ap decode_sub same ∙ decodes_b in cc
