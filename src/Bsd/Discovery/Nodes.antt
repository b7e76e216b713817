-- ===== src/Bsd/Discovery/Nodes.antt =====
-- The walk lists what the lookup finds, and each device once.
use anyserial.Base.{
  ◌≡◌, sym, ap, ◌∙◌, subst, true, false, ◌||◌, not, String, some, List, [], ◌∷◌, ◌++◌, if_cases,
  Bool-cases, inl, inr, arith,
}
use anyserial.Discovery.{Text, PortInfo}
use anyserial.Discovery.Sorting.{sort_by_device}
use anyserial.Discovery.Sorting.Stable.{All, sort_by-All, sort_by-IsStable}
use anyserial.Linux.Discovery.{device_of, is_part}
use anyserial.Linux.Discovery.Agreement.{has_slash, path_name-device_of}
use anyserial.Bsd.Discovery.{
  DevTree, patterns_for_platform, fnmatch_basename, glob, nodes, node_port, is_seen, unseen,
  is_empty, enumerate_ports, resolve_from, resolve_port_info,
}
use anyserial.Bsd.Discovery.Distinct.{AtMostOne, with_device, unseen-AtMostOne}

All-append : {A : Type 0} (P : A → Type 0) (xs ys : List A) → All P xs → All P ys → All P (xs ++ ys)
All-append P [] ys h k = k
All-append P (x ∷ xs) ys (p, h) k = (p, All-append P xs ys h k)

All-map :
    {A : Type 0} (P Q : A → Type 0) (xs : List A) → ((x : A) → P x → Q x) → All P xs → All Q xs
All-map P Q [] f h = tt
All-map P Q (x ∷ xs) f (p, h) = (f x p, All-map P Q xs f h)

module _ (dev : DevTree) where
  -- The name of an entry of a directory, whose path is spelled as `pathlib` spells it.
  abbrev pub IsNode : Text → Type 0
  IsNode name =
      (has_slash name ≡ false)
      × (is_part name ≡ true)
      × (dev.normal (device_of name) ≡ device_of name)

  -- These patterns find the node by its path.
  abbrev FoundBy : List Text → Text → Type 0
  FoundBy patterns name =
      resolve_from dev (device_of name) name patterns ≡ some (node_port (device_of name) name)

  found_here :
      (patterns : List Text) (pattern name : Text)
      → IsNode name
      → fnmatch_basename name pattern ≡ true
      → FoundBy (pattern ∷ patterns) name
  unfolding resolve_from
  found_here patterns pattern name (s, p, e) m =
      if_cases (λ o. o ≡ some (node_port (device_of name) name))
        (dev.matches_path (device_of name) pattern || fnmatch_basename name pattern) _ _
        (λ t. ap (λ d. some (node_port d name)) e) (λ f. absurd (ground (arith, f, m)))

  found_later :
      (patterns : List Text) (pattern name : Text)
      → dev.normal (device_of name) ≡ device_of name
      → FoundBy patterns name
      → FoundBy (pattern ∷ patterns) name
  unfolding resolve_from
  found_later patterns pattern name e h =
      if_cases (λ o. o ≡ some (node_port (device_of name) name))
        (dev.matches_path (device_of name) pattern || fnmatch_basename name pattern) _ _
        (λ t. ap (λ d. some (node_port d name)) e) (λ f. h)

  abbrev IsListed : List Text → Text → Type 0
  IsListed patterns name = IsNode name × FoundBy patterns name

  glob-IsListed :
      (patterns : List Text) (pattern : Text) (names : List Text)
      → All IsNode names
      → All (IsListed (pattern ∷ patterns)) (glob pattern names)
  unfolding glob
  glob-IsListed patterns pattern [] h = tt
  glob-IsListed patterns pattern (name ∷ names) (n, h) =
      if_cases (All (IsListed (pattern ∷ patterns))) (fnmatch_basename name pattern) _ _
        (λ t. ((n, found_here patterns pattern name n t), glob-IsListed patterns pattern names h))
        (λ f. glob-IsListed patterns pattern names h)

  nodes-IsListed :
      (patterns names : List Text)
      → All IsNode names
      → All (IsListed patterns) (nodes patterns names)
  unfolding nodes
  nodes-IsListed [] names h = tt
  nodes-IsListed (pattern ∷ patterns) names h =
      All-append (IsListed (pattern ∷ patterns)) (glob pattern names) (nodes patterns names)
        (glob-IsListed patterns pattern names h)
        (All-map (IsListed patterns) (IsListed (pattern ∷ patterns)) (nodes patterns names)
          (λ name x. (x.0, found_later patterns pattern name x.0.2 x.1))
          (nodes-IsListed patterns names h))

  -- The lookup of the port's device gives the port.
  abbrev pub IsFound : String → PortInfo → Type 0
  IsFound platform p = resolve_port_info dev platform p.device ≡ some p

  looked_up :
      (platform : String) (name : Text)
      → IsListed (patterns_for_platform platform) name
      → IsFound platform (node_port (device_of name) name)
  unfolding resolve_port_info
  looked_up platform name ((s, p, e), h) =
      ap (λ n. resolve_from dev (device_of name) n (patterns_for_platform platform))
        (path_name-device_of name s p)
      ∙ h

  unseen-IsFound :
      (platform : String) (seen names : List Text)
      → All (IsListed (patterns_for_platform platform)) names
      → All (IsFound platform) (unseen seen names)
  unfolding unseen
  unseen-IsFound platform seen [] h = tt
  unseen-IsFound platform seen (name ∷ names) (n, h) =
      elim (Bool-cases (is_seen (device_of name) seen)) [
        | inl t ↦ rw t (unseen-IsFound platform seen names h)
        | inr f ↦
            rw f
              (looked_up platform name n, unseen-IsFound platform (device_of name ∷ seen) names h)
      ]

  once :
      (d : Text) (ports : List PortInfo)
      → AtMostOne (with_device d ports)
      → AtMostOne (with_device d (sort_by_device ports))
  once d ports h = subst AtMostOne (sym ((sort_by-IsStable (λ p. p.device) ports).1 d)) h

  -- Where the entries of /dev have names of one part and paths that `pathlib` spells alike: each port
  -- that the walk lists is what the lookup of its device gives, and no device is listed twice, though
  -- a node may match several patterns.
  pub enumerate_ports-Listed :
      (platform : String)
      → All IsNode dev.names
      → All (IsFound platform) (enumerate_ports dev platform)
        × ((d : Text) → AtMostOne (with_device d (enumerate_ports dev platform)))
  unfolding enumerate_ports
  enumerate_ports-Listed platform h =
      let patterns = patterns_for_platform platform in
      let ports = unseen [] (nodes patterns dev.names) in
      (
        if_cases (All (IsFound platform)) (is_empty patterns || not dev.is_dir) _ _ (λ t. tt)
            (λ f.
              sort_by-All (λ p. p.device) (IsFound platform) ports
                (unseen-IsFound platform [] (nodes patterns dev.names)
                  (nodes-IsListed patterns dev.names h))),
        λ d.
            if_cases (λ l. AtMostOne (with_device d l)) (is_empty patterns || not dev.is_dir) _ _
              (λ t. tt) (λ f. once d ports (unseen-AtMostOne d [] (nodes patterns dev.names))),
      )
