-- ===== src/Proxy/Auth/Hosts.antt =====
-- The names that the hosts of a domain carry (internal/proxy/auth.go: vmNameFromHost).
use ussycode.Base.{
  ◌≡◌, refl, true, false, ◌||◌, [], ◌∷◌, ◌++◌, nat_eq, list_eq, Text, is_empty, contains_byte,
  has_suffix, trim_suffix, take-append, last_index-none, last_index-append, has_suffix-append,
  trim_suffix-has_suffix, trim_suffix-append, arith, Bool-cases, inl, inr,
}
use ussycode.Proxy.Auth.{colon, dot, strip_port, vm_name_from_host}

strip_port-none : (host : Text) → contains_byte colon host ≡ false → strip_port host ≡ host
unfolding strip_port
strip_port-none host h = rw (last_index-none colon host h, strip_port) refl

strip_port-append :
    (host port : Text) → contains_byte colon port ≡ false → strip_port (host ++ colon ∷ port) ≡ host
unfolding strip_port
strip_port-append host port h =
    rw (last_index-append colon host port h, strip_port) (take-append host (colon ∷ port))

-- A label of one part.
abbrev pub IsLabel : Text → Type 0
IsLabel name = (is_empty name ≡ false) × (contains_byte dot name ≡ false)

bare_host :
    (domain name host : Text)
    → IsLabel name
    → strip_port host ≡ name ++ dot ∷ domain
    → vm_name_from_host domain host ≡ name
unfolding vm_name_from_host
bare_host domain name host label h =
    rw
      (
        h,
        has_suffix-append name (dot ∷ domain),
        trim_suffix-append name (dot ∷ domain),
        label.0,
        label.1,
      )
      refl

-- A host name made of a label without a dot, the domain and a port without a colon stands for that label, and
-- so does the host name without a port where neither the label nor the domain holds a colon.
pub vm_name_from_host_label :
    (domain name port : Text)
    → IsLabel name
    → contains_byte colon port ≡ false
    → (vm_name_from_host domain ((name ++ dot ∷ domain) ++ colon ∷ port) ≡ name)
      × (contains_byte colon (name ++ dot ∷ domain) ≡ false
          → vm_name_from_host domain (name ++ dot ∷ domain) ≡ name)
vm_name_from_host_label domain name port label digits = (
  bare_host domain name _ label (strip_port-append (name ++ dot ∷ domain) port digits),
  (λ h. bare_host domain name _ label (strip_port-none (name ++ dot ∷ domain) h)),
)

empty_text : {t : Text} → t ≡ [] → is_empty t ≡ true
unfolding is_empty
empty_text h = rw h refl

no_suffix :
    (domain host : Text)
    → has_suffix (strip_port host) (dot ∷ domain) ≡ false
    → vm_name_from_host domain host ≡ []
unfolding vm_name_from_host
no_suffix domain host h = rw h refl

no_label :
    (domain host : Text)
    → has_suffix (strip_port host) (dot ∷ domain) ≡ true
    → (is_empty (trim_suffix (strip_port host) (dot ∷ domain))
        || contains_byte dot (trim_suffix (strip_port host) (dot ∷ domain)))
      ≡ true
    → vm_name_from_host domain host ≡ []
unfolding vm_name_from_host
no_label domain host h k = rw (h, k) refl

sole_label :
    (domain host : Text)
    → has_suffix (strip_port host) (dot ∷ domain) ≡ true
    → (is_empty (trim_suffix (strip_port host) (dot ∷ domain))
        || contains_byte dot (trim_suffix (strip_port host) (dot ∷ domain)))
      ≡ false
    → vm_name_from_host domain host ≡ trim_suffix (strip_port host) (dot ∷ domain)
unfolding vm_name_from_host
sole_label domain host h k = rw (h, k) refl

-- Whatever host the request names, where a name is read from it the name is a label without a dot,
-- and the host without its port is that label, a dot and the domain.
pub vm_name_from_host-IsLabel :
    (domain host : Text)
    → is_empty (vm_name_from_host domain host) ≡ false
    → IsLabel (vm_name_from_host domain host)
      × (strip_port host ≡ vm_name_from_host domain host ++ dot ∷ domain)
vm_name_from_host-IsLabel domain host h =
    let bare = strip_port host in
    let name = trim_suffix bare (dot ∷ domain) in
    elim (Bool-cases (has_suffix bare (dot ∷ domain))) [
      | inr other ↦ absurd (cc (h, empty_text (no_suffix domain host other)))
      | inl ours ↦ elim (Bool-cases (is_empty name || contains_byte dot name)) [
        | inl part ↦ absurd (cc (h, empty_text (no_label domain host ours part)))
        | inr label ↦
            rw (sole_label domain host ours label)
              (ground (arith, label), trim_suffix-has_suffix bare (dot ∷ domain) ours)
      ]
    ]
