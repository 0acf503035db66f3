-- ===== src/Protocol/RoundTrip/Packages/Endpoints.antt =====
-- Constraint endpoints in their two forms, told apart by the bytes that are left.
use mcpd.Base.{ℕ, zero, suc, ◌+◌, ◌*◌, ◌^◌, ◌<◌, ◌≡◌, refl, ◌∙◌, ap, List, map, length, All, arith}
use mcpd.Base.{true, ◌==◌}
use mcpd.Base.Int.{negsuc, IsI32, IsI64}
use mcpd.Wire.{M, remaining, write_each, write_vector, read_times}
use mcpd.Wire.Reads.{Reads, Reads-seq, Reads-last, Reads-resize, >>=-ok}
use mcpd.Wire.Reads.Scalars.{Reads-i32, Reads-bool, Reads-long, Reads-float}
use mcpd.Wire.Reads.Vectors.{total, total-const, Reads-times}
use mcpd.Wire.Reads.Ends.{Ends, Ends-of, Ends-sized}
use mcpd.Protocol.{
  ConstraintEndpointBinding, Mode, full, worker_load, endpoint_bytes, write_endpoint,
}
use mcpd.Protocol.{write_constraint_endpoint, write_compact_constraint_endpoint}
use mcpd.Protocol.{read_constraint_endpoint, read_compact_constraint_endpoint, read_endpoints}
use mcpd.Protocol.{read_constraint_endpoint_vector}

pub record IsEndpoint (b : ConstraintEndpointBinding) : Type 0 where
  pub constraint : IsI32 b.constraint_id
  pub node : IsI32 b.global_node_id
  pub index : IsI32 b.local_index
  pub alpha : IsI64 b.alpha
  pub last : IsI64 b.last_alpha
  pub momentum : b.alpha_momentum < 2 ^ 32

-- The compact form drops the node and the momentum.
abbrev pub received_endpoint : Mode → ConstraintEndpointBinding → ConstraintEndpointBinding
received_endpoint full b = b
received_endpoint worker_load b = record b { global_node_id = negsuc 0; alpha_momentum = 0 }

abbrev pub reader : Mode → M ConstraintEndpointBinding
reader full = read_constraint_endpoint
reader worker_load = read_compact_constraint_endpoint

Reads-endpoint :
    (mode : Mode) (b : ConstraintEndpointBinding)
    → IsEndpoint b
    → Reads (write_endpoint mode b) (reader mode) (received_endpoint mode b) (endpoint_bytes mode)
unfolding write_constraint_endpoint read_constraint_endpoint write_compact_constraint_endpoint
    read_compact_constraint_endpoint
Reads-endpoint full b v = Reads-resize _ (omega arith) (
    Reads-seq _ (Reads-i32 b.constraint_id v.constraint) (
      Reads-seq _ (Reads-i32 b.global_node_id v.node) (
        Reads-seq _ (Reads-i32 b.local_index v.index) (
          Reads-seq _ (Reads-bool b.is_source) (
            Reads-seq _ (Reads-long b.alpha v.alpha) (
              Reads-seq _ (Reads-long b.last_alpha v.last)
                (Reads-last _ (Reads-float b.alpha_momentum v.momentum))))))))
Reads-endpoint worker_load b v = Reads-resize _ (omega arith) (
    Reads-seq _ (Reads-i32 b.constraint_id v.constraint) (
      Reads-seq _ (Reads-i32 b.local_index v.index) (
        Reads-seq _ (Reads-bool b.is_source) (
          Reads-seq _ (Reads-long b.alpha v.alpha)
            (Reads-last _ (Reads-long b.last_alpha v.last))))))

eq_self : (n : ℕ) → (n == n) ≡ true
eq_self n = ground arith

-- The bytes that are left tell the form; with no endpoint the forms agree.
read_endpoints_form :
    (mode : Mode) (n : ℕ) → read_endpoints n (n * endpoint_bytes mode) ≡ read_times n (reader mode)
unfolding read_endpoints
read_endpoints_form worker_load n = rw (eq_self (n * 25))
read_endpoints_form full zero = unfold read_times in refl
read_endpoints_form full (suc n) = ground arith

pub Reads-endpoints :
    (mode : Mode) (bs : List ConstraintEndpointBinding)
    → All IsEndpoint bs
    → Reads
        (write_each (write_endpoint mode) bs)
        (read_times (length bs) (reader mode))
        (map (received_endpoint mode) bs)
        (total (λ _. endpoint_bytes mode) bs)
Reads-endpoints mode bs v =
    Reads-times IsEndpoint (write_endpoint mode) (reader mode) (received_endpoint mode)
      (λ _. endpoint_bytes mode) (Reads-endpoint mode) bs v

pub Ends-endpoints :
    (mode : Mode) (bs : List ConstraintEndpointBinding)
    → length bs < 2 ^ 32
    → All IsEndpoint bs
    → Ends
        (write_vector bs (write_endpoint mode))
        read_constraint_endpoint_vector
        (map (received_endpoint mode) bs)
        (4 + length bs * endpoint_bytes mode)
unfolding write_vector read_constraint_endpoint_vector
Ends-endpoints mode bs n v =
    Ends-sized (length bs) (write_each (write_endpoint mode) bs) _ n (record {
      bytes = x.bytes;
      sized = x.sized ∙ total-const (endpoint_bytes mode) bs;
      written = x.written;
      reads =
          >>=-ok remaining _ x.bytes x.bytes (length x.bytes) (unfold remaining in refl)
          ∙ ap (λ (t : ℕ). read_endpoints (length bs) t x.bytes)
              (x.sized ∙ total-const (endpoint_bytes mode) bs)
          ∙ ap (λ (f : M (List ConstraintEndpointBinding)). f x.bytes)
              (read_endpoints_form mode (length bs))
          ∙ x.reads;
    })
  where
    x :
        Ends
          (write_each (write_endpoint mode) bs)
          (read_times (length bs) (reader mode))
          (map (received_endpoint mode) bs)
          (total (λ _. endpoint_bytes mode) bs)
    x = Ends-of (Reads-endpoints mode bs v)
