-- ===== src/Views/Sources.antt =====
-- modules/console/panel.c: what the views read from the system, by the collectors and the functions
-- that load texts. `pager_open` is called with one of these functions.
use mobile_config.Base.{true, false, List, Option, ℤ}
use mobile_config.Libc.{Bytes}
use mobile_config.Config.{Config}
use mobile_config.System.{System}
use mobile_config.Collect.Cpu.{CpuSample}
use mobile_config.Dashboard.Gather.{gather}
use mobile_config.Text.Journal.{Match, Journal, load_journal}
use mobile_config.Text.Kmsg.{KmsgRead, load_kmsg}
use mobile_config.Text.Lists.{load_units, load_network, load_processes}
use mobile_config.Views.State.{Source, boot_log, errors, kmsg, units, network, processes, Env}

-- The functions behind `load_boot_log` and the others.
unfoldable pub load_source :
    Config → System → (List Match → Journal) → Option (List KmsgRead) → Source → List Bytes
unfolding load_journal load_kmsg load_units load_network load_processes
load_source cfg sys journal reads boot_log = load_journal cfg sys journal false
load_source cfg sys journal reads errors = load_journal cfg sys journal true
load_source cfg sys journal reads kmsg = load_kmsg cfg sys reads
load_source cfg sys journal reads units = load_units sys.bus
load_source cfg sys journal reads network = load_network cfg sys
load_source cfg sys journal reads processes = load_processes cfg sys

-- The environment of an event, with the globals `cores`, `peers` and the last sample of the processor.
unfoldable pub env_of :
    Config → System → (List Match → Journal) → Option (List KmsgRead) → ℤ → Bytes → CpuSample → Env
unfolding gather load_source
env_of cfg sys journal reads cores peers prev = record {
  readings = (gather cfg sys cores peers prev).1;
  load = load_source cfg sys journal reads;
}
