-- ===== src/Gpu/Tracer/Success.antt =====
-- Where nothing outside refuses, the tracing of a scene returns, and its image is in the file.
use pathological_v.Tiles
use pathological_v.Gpu.Tracer.Built.{Built}
