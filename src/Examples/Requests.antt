-- ===== src/Examples/Requests.antt =====
-- The theorem on the fields of requests at one request.
use labcomm_core.Common.{◌≡◌, ◌<◌, ◌^◌, arith}
use labcomm_core.Ioctl.{ioc, ioc_sig, ioc_dir, ioc_size, ioc_type, ioc_nr}
use labcomm_core.Ioctl.Fields.{ioc-fields}

ioc-fields_example :
    (ioc_sig (ioc 1 2 31 7 4) ≡ 1)
    × ((ioc_dir (ioc 1 2 31 7 4) ≡ 2)
        × ((ioc_size (ioc 1 2 31 7 4) ≡ 4)
            × ((ioc_type (ioc 1 2 31 7 4) ≡ 31)
                × ((ioc_nr (ioc 1 2 31 7 4) ≡ 7) × (ioc 1 2 31 7 4 < 2 ^ 32)))))
ioc-fields_example =
    ioc-fields 1 2 31 7 4 (omega arith) (omega arith) (omega arith) (omega arith) (omega arith)
