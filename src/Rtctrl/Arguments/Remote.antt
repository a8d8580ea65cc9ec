-- ===== src/Rtctrl/Arguments/Remote.antt =====
-- `getIpPort` and `setParamRemote` of src/rtctrl/cmd.cpp.
use f_copss.Rtctrl.Arguments.{
  ip_port_of, codes, set_param, address_of, to_string, Param, is_colon, set_param_remote,
  get_ip_port, remove_if, is_space, drop_all, Network,
}
use f_copss.Boost.{IsFree, Boost}
use f_copss.Prelude.{
  append-nil, arith, length, bad_argument, sym, err, inr, refl, none, ◌∙◌, [], false, inl, ◌⊎◌, ap,
  ok, ◌∷◌, ◌++◌, ◌≡◌, Bool, Bytes,
}
use Prim.Native.Nat.{ℕ}

drop_all-free : (p : ℕ → Bool) (s : Bytes) → IsFree p s → drop_all p s ≡ s
drop_all-free p [] free = refl
drop_all-free p (c ∷ s) (out, free) = rw out (ap (λ x. c ∷ x) (drop_all-free p s free))

-- The remote end is an address and a port with a colon between them, or an address and the default
-- port.
abbrev pub IsRemote : Bytes → ℕ → Bytes → Bytes → Type 0
IsRemote remote default_port ip port =
    (remote ≡ ip ++ (b':' ∷ port)) ⊎ ((remote ≡ ip) × (port ≡ to_string default_port))

-- No space and no colon in it.
abbrev pub IsBare : Bytes → Type 0
IsBare s = IsFree is_space s × IsFree is_colon s

IsFree-append : (p : ℕ → Bool) (a b : Bytes) → IsFree p a → IsFree p b → IsFree p (a ++ b)
IsFree-append p [] b f g = g
IsFree-append p (x ∷ a) b (o, f) g = (o, IsFree-append p a b f g)

length-nil : (s : Bytes) → length s ≡ 0 → s ≡ []
length-nil [] l = refl
length-nil (c ∷ s) l = absurd (omega arith)

module _ ⦃boost : Boost⦄ ⦃network : Network⦄ where
  remove_if-free : (p : ℕ → Bool) (s : Bytes) → IsFree p s → remove_if p s ≡ s
  remove_if-free p s free =
      let same = drop_all-free p s free in
      let l = network.leftover-length p s in
      let nothing = length-nil (network.leftover p s) (omega (arith, ap length same, l)) in
      rw (same, nothing) (append-nil s)

  get_ip_port-free :
      (remote : Bytes) (default_port : ℕ)
      → IsFree is_space remote
      → get_ip_port remote default_port
        ≡ ip_port_of remote default_port (boost.split is_colon remote)
  unfolding get_ip_port
  get_ip_port-free remote default_port free =
      ap (λ ip. ip_port_of ip default_port (boost.split is_colon ip))
        (remove_if-free is_space remote free)

  get_ip_port-whole :
      (ip : Bytes) (default_port : ℕ)
      → IsBare ip
      → get_ip_port ip default_port ≡ ok (ip, to_string default_port)
  get_ip_port-whole ip default_port (no_space, no_colon) =
      get_ip_port-free ip default_port no_space
      ∙ ap (ip_port_of ip default_port) (boost.split-join is_colon b':' ip [] refl no_colon tt)

  get_ip_port-parts :
      (ip port : Bytes) (default_port : ℕ)
      → IsBare ip
      → IsBare port
      → get_ip_port (ip ++ (b':' ∷ port)) default_port ≡ ok (ip, port)
  get_ip_port-parts ip port default_port (no_space, no_colon) (no_space', no_colon') =
      get_ip_port-free (ip ++ (b':' ∷ port)) default_port
        (IsFree-append is_space ip (b':' ∷ port) no_space (refl, no_space'))
      ∙ ap (ip_port_of (ip ++ (b':' ∷ port)) default_port)
          (boost.split-join is_colon b':' ip (port ∷ []) refl no_colon (no_colon', tt))

  pub get_ip_port_lem :
      (remote ip port : Bytes) (default_port : ℕ)
      → IsBare ip
      → IsBare port
      → IsRemote remote default_port ip port
      → get_ip_port remote default_port ≡ ok (ip, port)
  get_ip_port_lem remote ip port default_port i p (inl e) =
      ap (λ r. get_ip_port r default_port) e ∙ get_ip_port-parts ip port default_port i p
  get_ip_port_lem remote ip port default_port i p (inr (e, f)) =
      ap (λ r. get_ip_port r default_port) e
      ∙ get_ip_port-whole ip default_port i
      ∙ ap (λ x. ok (ip, x)) (sym f)

  pub set_param_remote_lem :
      (remote ip port address : Bytes) (default_port : ℕ) (param : Param)
      → IsBare ip
      → IsBare port
      → IsRemote remote default_port ip port
      → address_of remote ip port ≡ ok address
      → set_param_remote remote default_port param
        ≡ ok (set_param (codes "PORT") port (set_param (codes "IP") address param))
  unfolding set_param_remote
  set_param_remote_lem remote ip port address default_port param i p r found =
      rw (get_ip_port_lem remote ip port default_port i p r, found) refl

  -- A host name that is followed by a colon and a port is refused, whatever the name itself resolves
  -- to, when the resolver knows no host by the whole text.
  pub set_param_remote-refused :
      (name port : Bytes) (default_port : ℕ) (param : Param)
      → IsBare name
      → IsBare port
      → network.is_address name ≡ false
      → network.resolve (name ++ (b':' ∷ port)) port ≡ none
      → set_param_remote (name ++ (b':' ∷ port)) default_port param ≡ err bad_argument
  unfolding set_param_remote
  set_param_remote-refused name port default_port param i p other unknown =
      rw (get_ip_port-parts name port default_port i p, other, unknown) refl
