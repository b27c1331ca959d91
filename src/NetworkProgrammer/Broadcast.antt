-- ===== src/NetworkProgrammer/Broadcast.antt =====
-- The broadcast mode of the socket, which the discovery of a device turns on.
use programmer.Prelude.{ℕ, ◌≡◌, ◌⊎◌, refl, ap, inl, inr, false}
use programmer.Exceptions.{Result, ok, throws, fault, Fault, rethrow, Part, text}
use programmer.Protocol.Op
use programmer.DeviceDescriptor.{find}
use programmer.NetworkProgrammer.{
  NetworkProgrammer, Action, resume, communicate, select_operation, prepare_payload, get_struct,
  end_broadcast, read_info, set_address, fill_config, process_discover, discover_device,
  connect_device, configure_device,
}

-- The mode is off, or the run has no defined meaning.
abbrev pub IsQuiet {ℓ} : {A : Type ℓ} → NetworkProgrammer × Result A → Type ℓ
IsQuiet (p, r) = (p.broadcast ≡ false) ⊎ ((f : Fault) × (r ≡ fault f))

resume-IsQuiet {ℓ} :
    {A : Type 0} {B : Type ℓ} (p : NetworkProgrammer) (r : Result A) (next : A → Action B)
    → p.broadcast ≡ false
    → ((a : A) (q : NetworkProgrammer) → q.broadcast ≡ false → IsQuiet (next a q))
    → IsQuiet (resume p r next)
resume-IsQuiet p (ok a) next h k = k a p h
resume-IsQuiet p (throws e) next h k = inl h
resume-IsQuiet p (fault f) next h k = inl h

ended-IsQuiet :
    {B : Type 0} (p : NetworkProgrammer) (r : Result (Unit {0})) (next : Unit {0} → Action B)
    → ((a : Unit {0}) (q : NetworkProgrammer) → q.broadcast ≡ false → IsQuiet (next a q))
    → IsQuiet (resume (end_broadcast (p, r)).0 (end_broadcast (p, r)).1 next)
unfolding end_broadcast
ended-IsQuiet p (ok a) next k = k tt _ refl
ended-IsQuiet p (throws e) next k = inl refl
ended-IsQuiet p (fault f) next k = inr (f, refl)

process_discover-IsQuiet : (op : ℕ) (p : NetworkProgrammer) → IsQuiet (process_discover op p)
unfolding process_discover get_struct
process_discover-IsQuiet op p = ended-IsQuiet (communicate p).0 (communicate p).1 _ (λ a q h.
    resume-IsQuiet q (get_struct 8 op q).1 _ h (λ info q' h'.
      resume-IsQuiet _ (find (read_info info).device_id) _ h' (λ d q'' h''. inl h'')))

rethrow-IsQuiet :
    (r : NetworkProgrammer × Result (Unit {0})) (p : Part)
    → IsQuiet r
    → IsQuiet (r.0, rethrow p r.1)
rethrow-IsQuiet (q, r) p (inl h) = inl h
rethrow-IsQuiet (q, r) p (inr (f, h)) = inr (f, ap (rethrow p) h)

-- The methods that discover a device leave the socket out of broadcast mode, whatever address they are
-- given, whatever arrives and however they end; an exception included, a fault not.
pub discoveries-IsQuiet :
    (ip port : ℕ) (p : NetworkProgrammer)
    → IsQuiet (discover_device port p)
      × IsQuiet (connect_device ip port p)
      × IsQuiet (configure_device ip port p)
unfolding discover_device connect_device configure_device
discoveries-IsQuiet ip port p =
    let q = select_operation Op.discover 0 0 (set_address ip port p) in
    let q' = fill_config ip (prepare_payload Op.net_config 10 (set_address 0xFFFFFFFF port p)) in
    (
      process_discover-IsQuiet Op.discover
          (select_operation Op.discover 0 0 (set_address 0xFFFFFFFF port p)),
      rethrow-IsQuiet (process_discover Op.discover q) (text "Unable to connect to a target.")
          (process_discover-IsQuiet Op.discover q),
      rethrow-IsQuiet (process_discover Op.net_config q')
          (text "Unable to configure network connection.")
          (process_discover-IsQuiet Op.net_config q'),
    )
