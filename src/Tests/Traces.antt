-- ===== src/Tests/Traces.antt =====
-- A record file with a host record and a target record.
use ntprof.Prelude.{
  ℕ, ◌+◌, ◌^◌, ◌<◌, ◌≡◌, ◌≢◌, refl, true, false, none, some, List, [], ◌∷◌, ◌++◌, take, replicate,
  arith, length,
}
use ntprof.Record.{HostRec, TgtRec}
use ntprof.Trace.Layout.{
  FileHeader, header_bytes, header_fields, host_front, host_rest, tgt_fields, kind_byte,
  transport_byte, flags_word,
}
use ntprof.Trace.Fields.{FitsHost, FitsTarget}
use ntprof.Trace.Reader.{
  truncated_record, out_of_fuel, read_file, File, Machine, Writer, header_init, is_readable,
  host_size, tgt_size, text64,
}
use ntprof.Trace.Ends.{read_file-ends}
use ntprof.Trace.Records.{
  Rec, host_rec, tgt_rec, AllFitting, visitor, visit, all_bytes, bytes_of, size_of,
}
use ntprof.Trace.Files.{IsGood, read_file-versions, read_file-cut}
use ntprof.Trace.Write.{IsSized, visit_all, write_all, read_file-write_all}
use ntprof.Tests.Records.{host_read, tgt_read}

abbrev pub named : HostRec
named = record host_read { disk = 110 ∷ 118 ∷ replicate 30 0 }

pub named-FitsHost : FitsHost named
unfolding host_front host_rest kind_byte transport_byte flags_word
named-FitsHost = record {
  kind = refl;
  front = (
    omega arith,
    (
      omega arith,
      (
        omega arith,
        (
          omega arith,
          (
            omega arith,
            (
              omega arith,
              (
                omega arith,
                (
                  omega arith,
                  (
                    omega arith,
                    (
                      omega arith,
                      (
                        omega arith,
                        (
                          omega arith,
                          (
                            omega arith,
                            (omega arith, (omega arith, (omega arith, (omega arith, tt)))),
                          ),
                        ),
                      ),
                    ),
                  ),
                ),
              ),
            ),
          ),
        ),
      ),
    ),
  );
  disk = refl;
  rest = (
    omega arith,
    (
      omega arith,
      (
        omega arith,
        (
          omega arith,
          (
            omega arith,
            (
              omega arith,
              (
                omega arith,
                (
                  omega arith,
                  (
                    omega arith,
                    (
                      omega arith,
                      (
                        omega arith,
                        (
                          omega arith,
                          (
                            omega arith,
                            (
                              omega arith,
                              (
                                omega arith,
                                (omega arith, (omega arith, (omega arith, (omega arith, tt)))),
                              ),
                            ),
                          ),
                        ),
                      ),
                    ),
                  ),
                ),
              ),
            ),
          ),
        ),
      ),
    ),
  );
}

pub tgt_read-FitsTarget : FitsTarget tgt_read
unfolding tgt_fields kind_byte transport_byte flags_word
tgt_read-FitsTarget = record {
  kind = refl;
  fields = (
    omega arith,
    (
      omega arith,
      (
        omega arith,
        (
          omega arith,
          (
            omega arith,
            (
              omega arith,
              (
                omega arith,
                (
                  omega arith,
                  (
                    omega arith,
                    (
                      omega arith,
                      (
                        omega arith,
                        (
                          omega arith,
                          (
                            omega arith,
                            (
                              omega arith,
                              (
                                omega arith,
                                (
                                  omega arith,
                                  (
                                    omega arith,
                                    (
                                      omega arith,
                                      (
                                        omega arith,
                                        (
                                          omega arith,
                                          (
                                            omega arith,
                                            (
                                              omega arith,
                                              (
                                                omega arith,
                                                (
                                                  omega arith,
                                                  (
                                                    omega arith,
                                                    (
                                                      omega arith,
                                                      (
                                                        omega arith,
                                                        (
                                                          omega arith,
                                                          (
                                                            omega arith,
                                                            (
                                                            omega arith,
                                                            (
                                                            omega arith,
                                                            (
                                                            omega arith,
                                                            (omega arith, (omega arith, tt)),
                                                            ),
                                                            ),
                                                            ),
                                                          ),
                                                        ),
                                                      ),
                                                    ),
                                                  ),
                                                ),
                                              ),
                                            ),
                                          ),
                                        ),
                                      ),
                                    ),
                                  ),
                                ),
                              ),
                            ),
                          ),
                        ),
                      ),
                    ),
                  ),
                ),
              ),
            ),
          ),
        ),
      ),
    ),
  );
}

abbrev recorded : List Rec
recorded = host_rec named ∷ tgt_rec tgt_read ∷ []

recorded-AllFitting : AllFitting recorded
recorded-AllFitting = (named-FitsHost, (tgt_read-FitsTarget, tt))

abbrev pub machine : Machine
machine = record {
  hostname = some (97 ∷ 98 ∷ []);
  release = none;
  now_mono_ns = 1000;
  now_real_ns = 2000;
}

machine-IsSized : IsSized machine 1 1 10
machine-IsSized = record {
  role_fits = omega arith;
  transport_fits = omega arith;
  every_fits = omega arith;
  mono_fits = omega arith;
  real_fits = omega arith;
}

abbrev count_hosts : HostRec → ℕ → ℕ
count_hosts r n = n + 1

abbrev count_skbs : TgtRec → ℕ → ℕ
count_skbs r n = n + r.h2c_skbs

read_file-write_all_example :
    (w : Writer) × (write_all (header_init machine 1 1 10) recorded ≡ some w)
    × (w.records ≡ length recorded)
    × (read_file
          (visitor count_hosts count_skbs)
          (some (record { bytes = w.file; broken = false }))
          0
        ≡ (none, visit_all count_hosts count_skbs recorded 0))
read_file-write_all_example =
    read_file-write_all count_hosts count_skbs machine 1 1 10 recorded 0 machine-IsSized
      recorded-AllFitting

-- A header of file version 3.
abbrev pub old_header : ℕ → FileHeader
old_header role = record (header_init machine role 1 10) {
  version = 3;
  host_rec_size = 192;
  tgt_rec_size = 152;
}

pub old_header-IsGood : (role : ℕ) → role < 2 ^ 32 → IsGood (old_header role)
unfolding header_init header_fields is_readable host_size tgt_size text64
old_header-IsGood role h = record {
  fits = record {
    magic = refl;
    fields = (
      omega arith,
      (
        omega arith,
        (
          omega arith,
          (
            omega arith,
            (h, (omega arith, (omega arith, (omega arith, (omega arith, (omega arith, tt)))))),
          ),
        ),
      ),
    );
    hostname = refl;
    kernel = refl;
  };
  magic = refl;
  readable = refl;
}

read_file-versions_example :
    read_file
      (visitor count_hosts count_skbs)
      (some
        (record { bytes = header_bytes (old_header 1) ++ all_bytes 3 recorded; broken = false }))
      0
    ≡ (none, visit count_hosts count_skbs 3 recorded 0)
read_file-versions_example =
    read_file-versions count_hosts count_skbs (old_header 1) (old_header-IsGood 1 (omega arith))
      recorded 0 recorded-AllFitting

cut_short : 100 < size_of 3 (host_rec named)
unfolding size_of host_size
cut_short = omega arith

read_file-cut_example :
    read_file
      (visitor count_hosts count_skbs)
      (some (record {
        bytes =
            header_bytes (old_header 1)
            ++ (all_bytes 3 recorded ++ take 100 (bytes_of 3 (host_rec named)));
        broken = false;
      }))
      0
    ≡ (some truncated_record, visit count_hosts count_skbs 3 recorded 0)
read_file-cut_example =
    read_file-cut count_hosts count_skbs (old_header 1) (old_header-IsGood 1 (omega arith)) recorded
      (host_rec named) 100 0 recorded-AllFitting named-FitsHost cut_short

abbrev garbage : File
garbage = record { bytes = replicate 200 1; broken = true }

read_file-ends_example :
    (read_file (visitor count_hosts count_skbs) (some garbage) 0).0 ≢ some out_of_fuel
read_file-ends_example = read_file-ends (visitor count_hosts count_skbs) (some garbage) 0
