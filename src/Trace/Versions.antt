-- ===== src/Trace/Versions.antt =====
-- The records of each file version: src/trace_file.h says which fields a version lacks.
use ntprof.Prelude.{
  ℕ, ◌-◌, ◌<◌, ◌≡◌, refl, sym, ap, Bool, ltb, leb, ◌^◌, if◌then◌else◌, if-holds, Bool-cases, inl,
  inr, List, [], ◌∷◌, ◌++◌, take, length, length-append, replicate, arith,
}
use mathlib.Core.List.{append_assoc, append-nil}
use ntprof.Record.{HostRec, TgtRec, host_index, tgt_index}
use ntprof.Trace.Bytes.{AllFit, put, put_le, length-put, take_all, take_past}
use ntprof.Trace.Layout.{
  rest_fields, host_events, tgt_events, host_bytes, tgt_bytes, host_front, host_rest, tgt_fields,
  host_of, tgt_of,
}
use ntprof.Trace.Fields.{FitsHost, FitsTarget, host_of-host_bytes, tgt_of-tgt_bytes}
use ntprof.Trace.Reader.{host_size, tgt_size}

-- The record as a file of this version has it: a field that came later is 0.
unfoldable pub host_seen : ℕ → HostRec → HostRec
host_seen version r = if leb 4 version then r else record r {
  ts = λ e. if ltb (host_index e) 14 then r.ts e else 0;
  c2h_busy_ns = 0;
  c2h_skbs = 0;
}

unfoldable pub tgt_seen : ℕ → TgtRec → TgtRec
tgt_seen version r = if leb 5 version then r else record r {
  ts = λ e. if ltb (tgt_index e) (if leb 3 version then 14 else 13) then r.ts e else 0;
  h2c_busy_ns = 0;
  h2c_skbs = 0;
}

unfoldable host_old : HostRec → HostRec
host_old r = record r {
  ts = λ e. if ltb (host_index e) 14 then r.ts e else 0;
  c2h_busy_ns = 0;
  c2h_skbs = 0;
}

rest_cut :
    (r : HostRec) → take 112 (put (host_rest r)) ++ replicate 32 0 ≡ put (host_rest (host_old r))
unfolding put put_le host_rest host_old
rest_cut r = refl

-- Fields that become 0 fit.
rest_fields-AllFit :
    {E : Type 0} (ts : E → ℕ) (busy skbs : ℕ) (kept : E → Bool) (es : List E)
    → AllFit (rest_fields ts busy skbs es)
    → AllFit (rest_fields (λ e. if kept e then ts e else 0) 0 0 es)
rest_fields-AllFit ts busy skbs kept [] h = (omega arith, (omega arith, (omega arith, tt)))
rest_fields-AllFit ts busy skbs kept (e ∷ es) (f, h) =
    (if-holds (λ n. n < 2 ^ 64) (kept e) f (omega arith), rest_fields-AllFit ts busy skbs kept es h)

host_old-FitsHost : (r : HostRec) → FitsHost r → FitsHost (host_old r)
unfolding host_old host_rest host_front
host_old-FitsHost r h = record {
  kind = h.kind;
  front = h.front;
  disk = h.disk;
  rest =
      rest_fields-AllFit r.ts r.c2h_busy_ns r.c2h_skbs (λ e. ltb (host_index e) 14) host_events
        h.rest;
}

host_cut :
    (r : HostRec) → FitsHost r → take 192 (host_bytes r) ++ replicate 32 0 ≡ host_bytes (host_old r)
unfolding host_bytes host_front host_old
host_cut r h =
    let front = put (host_front r) in
    let rest = put (host_rest r) in
    rw
      (
        take_past 48 144 192 front (r.disk ++ rest) (length-put (host_front r)) (omega arith),
        take_past 32 112 144 r.disk rest h.disk (omega arith),
        append_assoc front (r.disk ++ take 112 rest) (replicate 32 0),
        append_assoc r.disk (take 112 rest) (replicate 32 0),
      )
      (ap (λ ys. front ++ (r.disk ++ ys)) (rest_cut r))

pub length-host_bytes : (r : HostRec) → FitsHost r → length (host_bytes r) ≡ 224
unfolding host_bytes host_front host_rest
length-host_bytes r h = omega (
  arith,
  length-append (put (host_front r)) (r.disk ++ put (host_rest r)),
  length-append r.disk (put (host_rest r)),
  length-put (host_front r),
  length-put (host_rest r),
  h.disk,
)

pub length-tgt_bytes : (r : TgtRec) → length (tgt_bytes r) ≡ 184
unfolding tgt_bytes tgt_fields
length-tgt_bytes r = length-put (tgt_fields r)

pub host_of-seen :
    (version : ℕ) (r : HostRec)
    → FitsHost r
    → host_of (take (host_size version) (host_bytes r) ++ replicate (224 - host_size version) 0)
      ≡ host_seen version r
unfolding host_seen host_size host_old
host_of-seen version r h = elim (Bool-cases (leb 4 version)) [
  | inl e ↦
      rw (e, host_size, host_seen, take_all 224 (host_bytes r) (length-host_bytes r h))
        (host_of-host_bytes r [] h)
  | inr e ↦
      rw (e, host_size, host_seen, host_cut r h, sym (append-nil (host_bytes (host_old r))))
        (host_of-host_bytes (host_old r) [] (host_old-FitsHost r h))
]

unfoldable tgt_old_v4 : TgtRec → TgtRec
tgt_old_v4 r = record r {
  ts = λ e. if ltb (tgt_index e) 14 then r.ts e else 0;
  h2c_busy_ns = 0;
  h2c_skbs = 0;
}

tgt_cut_v4 :
    (r : TgtRec)
    → take 152 (tgt_bytes r) ++ replicate 72 0 ≡ tgt_bytes (tgt_old_v4 r) ++ replicate 40 0
unfolding put put_le tgt_bytes tgt_fields tgt_old_v4
tgt_cut_v4 r = refl

tgt_old_v4-FitsTarget : (r : TgtRec) → FitsTarget r → FitsTarget (tgt_old_v4 r)
unfolding tgt_old_v4 tgt_fields
tgt_old_v4-FitsTarget r h =
    let (
      a0,
      (a1, (a2, (a3, (a4, (a5, (a6, (a7, (a8, (a9, (a10, (a11, (a12, (a13, (a14, rest)))))))))))))),
    ) =
      h.fields in
    record {
      kind = h.kind;
      fields = (
        a0,
        (
          a1,
          (
            a2,
            (
              a3,
              (
                a4,
                (
                  a5,
                  (
                    a6,
                    (
                      a7,
                      (
                        a8,
                        (
                          a9,
                          (
                            a10,
                            (
                              a11,
                              (
                                a12,
                                (
                                  a13,
                                  (
                                    a14,
                                    rest_fields-AllFit r.ts r.h2c_busy_ns r.h2c_skbs
                                        (λ e. ltb (tgt_index e) 14) tgt_events rest,
                                  ),
                                ),
                              ),
                            ),
                          ),
                        ),
                      ),
                    ),
                  ),
                ),
              ),
            ),
          ),
        ),
      );
    }

unfoldable tgt_old_v2 : TgtRec → TgtRec
tgt_old_v2 r = record r {
  ts = λ e. if ltb (tgt_index e) 13 then r.ts e else 0;
  h2c_busy_ns = 0;
  h2c_skbs = 0;
}

tgt_cut_v2 :
    (r : TgtRec)
    → take 144 (tgt_bytes r) ++ replicate 80 0 ≡ tgt_bytes (tgt_old_v2 r) ++ replicate 40 0
unfolding put put_le tgt_bytes tgt_fields tgt_old_v2
tgt_cut_v2 r = refl

tgt_old_v2-FitsTarget : (r : TgtRec) → FitsTarget r → FitsTarget (tgt_old_v2 r)
unfolding tgt_old_v2 tgt_fields
tgt_old_v2-FitsTarget r h =
    let (
      a0,
      (a1, (a2, (a3, (a4, (a5, (a6, (a7, (a8, (a9, (a10, (a11, (a12, (a13, (a14, rest)))))))))))))),
    ) =
      h.fields in
    record {
      kind = h.kind;
      fields = (
        a0,
        (
          a1,
          (
            a2,
            (
              a3,
              (
                a4,
                (
                  a5,
                  (
                    a6,
                    (
                      a7,
                      (
                        a8,
                        (
                          a9,
                          (
                            a10,
                            (
                              a11,
                              (
                                a12,
                                (
                                  a13,
                                  (
                                    a14,
                                    rest_fields-AllFit r.ts r.h2c_busy_ns r.h2c_skbs
                                        (λ e. ltb (tgt_index e) 13) tgt_events rest,
                                  ),
                                ),
                              ),
                            ),
                          ),
                        ),
                      ),
                    ),
                  ),
                ),
              ),
            ),
          ),
        ),
      );
    }

pub tgt_of-seen :
    (version : ℕ) (r : TgtRec)
    → FitsTarget r
    → tgt_of (take (tgt_size version) (tgt_bytes r) ++ replicate (224 - tgt_size version) 0)
      ≡ tgt_seen version r
unfolding tgt_seen tgt_size tgt_old_v4 tgt_old_v2
tgt_of-seen version r h = elim (Bool-cases (leb 5 version)) [
  | inl e ↦
      rw (e, tgt_size, tgt_seen, take_all 184 (tgt_bytes r) (length-tgt_bytes r))
        (tgt_of-tgt_bytes r _ h)
  | inr e ↦ elim (Bool-cases (leb 3 version)) [
    | inl f ↦
        rw (e, f, tgt_size, tgt_seen, tgt_cut_v4 r)
          (tgt_of-tgt_bytes (tgt_old_v4 r) (replicate 40 0) (tgt_old_v4-FitsTarget r h))
    | inr f ↦
        rw (e, f, tgt_size, tgt_seen, tgt_cut_v2 r)
          (tgt_of-tgt_bytes (tgt_old_v2 r) (replicate 40 0) (tgt_old_v2-FitsTarget r h))
  ]
]
