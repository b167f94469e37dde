-- ===== src/Gpu.antt =====
-- The worker's handling of the GPU (render_worker/src/buffer.hpp, image.hpp, vulkan_context.cpp,
-- scene.cpp, path_tracer.cpp). What Vulkan and its memory allocator give is a parameter.
pub mod Handles
pub mod Context
pub mod ShaderTable
pub mod Calls
pub mod Validity
pub mod Tracer
