-- ===== src/Lib.antt =====
-- A verification library for Pathological, a distributed path tracer: a scheduler takes render
-- requests over HTTP, splits each animation into frames and sends the frames to render workers over
-- gRPC; a worker path-traces a frame, stores it and reports back. Paths below are from the
-- repository's root.
--
-- The parts and their modules:
-- - Prelude and below it: numbers, Boolean tests, lists, association lists for the C++ maps, byte
--   strings, decimal texts, results with an exception (`Result`).
-- - Render: `RenderRequest` with its setters, guards and exceptions
--   (scheduler/src/renderRequest.cpp); Render/Json is `toJson`; Render/History is `RenderHistory`
--   (render_history.cpp) over a store of the shared objects.
-- - Scheduler: the state of `Scheduler` (scheduler/src/scheduler.hpp) and what it takes from outside
--   (`External`: uuids and their texts, the generator of job ids, presigned links). Its child modules
--   follow scheduler.cpp: Workers is the worker list, Jobs is `addJob`, Assign is `assignJobs` and its
--   dispatch threads, Complete is `markRenderCompleted`, RunLoop is `run` with its wait; Frames and
--   Invariant hold the accounting of frames that the proofs use.
-- - Server: the gRPC handlers (scheduler/src/scheduler_server.cpp).
-- - Runs: the scheduler as a transition system; a step is one request, one pass of `assignJobs`, or
--   one refused dispatch, in any order.
-- - Tiles: the subdivision of an image into launches (render_worker/src/path_tracer.cpp).
-- - S3: `S3Manager` (common/s3_manager.cpp) over an abstract client and file system, and
--   `Scheduler::uploadScene`.
-- - Scenes: `SceneList` (scheduler/src/scene_list.cpp).
-- - Controller: the HTTP handlers (scheduler/src/requestController.cpp); Requests and Uploads below it
--   follow a render and a scene through them.
-- - Worker: `RenderServer::RenderJob` and its job map (render_worker/src/render_server.cpp,
--   render_jobs.cpp, job.hpp), `generateScene` (render_worker.cpp) around the path tracer.
-- - Client: the gRPC clients (render_worker/src/scheduler_client.cpp, scheduler/src/render_client.cpp)
--   over stubs that are parameters or reach the modelled peer; Client/Frames follows a frame from its
--   dispatch to the worker and back.
-- - Gpu: Handles is `Buffer` and `Image` (render_worker/src/buffer.hpp, image.hpp) over the live
--   allocations; Context is `VulkanContext` (vulkan_context.cpp) over a driver; ShaderTable is
--   `createShaderBindingTable` (path_tracer.cpp) on memory. Tracer is `Scene` (scene.cpp) and
--   `PathTracer` as the Vulkan calls that they make, which are data (Calls), and Validity says what
--   each call needs and does; a number stands for an object and for its device address.
-- - Gltf: what the scene loader reads of a file's model, a third-party type, and the reads of its
--   buffers.
-- - Builder: the tables of `SceneBuilder` (render_worker/src/scene_builder.cpp) over glm as a parameter;
--   Loading is `loadGltfNode`, Traversal is `flattenToScene`, Forest the shape that links the two.
-- - SceneGraph: `SceneGraph` (scene_graph.cpp): the loading of a file, and the samples of its animation.
-- - Tests: concrete data, and each theorem with a hypothesis applied to them.
--
-- State is passed explicitly: an operation takes the state and returns it with its result. A C++
-- exception is the `throws` of `Result`. A `std::shared_ptr<RenderRequest>` is a key of a store, so
-- a write through one pointer is seen through all. An unordered map is an association list; no
-- theorem depends on its order. `uint32_t` arithmetic wraps by `u32`; an `int` is a ℤ, and
-- `IsInt` says that it fits 32 bits where that is needed. A `float` time is kept as the operations
-- that compute it. Loops are structural, and the recursion on tiles is on the accessibility of the
-- width, which halves. The recursions of the scene loader and of the flattening, whose order a file
-- decides, are on fuel; fuel above the rank of a node, which theorems below ask for, is never used up.
--
-- Each locked section, and each handler that passes several of them, is one step: interleavings
-- inside a handler are not modelled, except for the wait of the scheduler's loop and what the other
-- threads do beside it (Scheduler/RunLoop/Wakeup). Not modelled: the Vulkan, S3, gRPC and HTTP
-- libraries (what is used of them is a parameter; what Vulkan asks of the calls of the path tracer is
-- in Gpu/Validity), the destruction of the path tracer's objects, the programs' set-up, the shaders,
-- the web client and the deployment files.
pub mod Prelude
pub mod Render
pub mod Scheduler
pub mod Server
pub mod S3
pub mod Scenes
pub mod Controller
pub mod Worker
pub mod Client
pub mod Gpu
pub mod Gltf
pub mod Builder
pub mod SceneGraph
pub mod Runs
pub mod Tiles
pub mod Tests
